-- ===== src/Resolver/Model.antt =====
-- The data of rust/crates/leanbun-resolver/src/model.rs, and the comparisons of sources there. An
-- error keeps its kind, and its conflict where it has one.
use leanbun.Base.{
  ℕ, List, Option, none, some, Bool, true, false, ◌&&◌, Equal, ◌==◌, bytes_equal, ℕ_discrete,
}
use leanbun.Lock.Model.{Text, Sha256, PackageKey, key_equal, keys_equal, option_equal}

pub data ErrorKind : Type 0 where
  invalid_field limit_exceeded active_lock_required active_lock_mismatch : ErrorKind
  duplicate_candidate_identity duplicate_update_target unknown_update_target : ErrorKind
  missing_transitive_declaration ambiguous_candidate source_kind_conflict : ErrorKind
  source_value_conflict toolchain_candidate_conflict dependency_cycle graph_too_deep : ErrorKind
  frozen_graph_drift update_escapes_impact_closure : ErrorKind
  -- the model's own: no counterpart in the program
  out_of_fuel : ErrorKind

-- LeanToolchainIdentityV1
pub record Toolchain : Type 0 where
  pub lean_toolchain : Text
  pub compiler_githash : Text
  pub lake_version : Text

toolchain_discrete : Discrete Toolchain
toolchain_discrete = hlevel ℕ_discrete

instance unfoldable pub toolchain_equal : Equal Toolchain
unfolding toolchain_discrete ℕ_discrete
toolchain_equal = record { discrete = toolchain_discrete }

-- LeanSourceRequestV1
pub data SourceRequest : Type 0 where
  git : (url : Text) (revision subdir : Option Text) → SourceRequest
  reservoir : (version : Option Text) → SourceRequest
  path : (portable_path_token : Text) → SourceRequest

unfoldable pub kind_tag : SourceRequest → ℕ
kind_tag (SourceRequest.git _ _ _) = 1
kind_tag (SourceRequest.reservoir _) = 2
kind_tag (SourceRequest.path _) = 3

-- LeanExactSourceV1
pub data ExactSource : Type 0 where
  git : (url exact_revision : Text) (subdir : Option Text) → ExactSource
  path : (portable_path_token : Text) (source_identity : Sha256) → ExactSource

-- LeanDependencyRequirementV1
pub record Requirement : Type 0 where
  pub key : PackageKey
  pub source : SourceRequest

-- LeanPackageCandidateV1
pub record Candidate : Type 0 where
  pub key : PackageKey
  pub requested : SourceRequest
  pub resolved : ExactSource
  pub dependencies : List Requirement
  pub toolchain_candidate : Option Toolchain
  pub download_integrity : Option Sha256
  pub source_tree_sha256 : Sha256
  pub config_sha256 : Sha256
  pub manifest_sha256 : Option Sha256
  pub selected_source_identity : Sha256
  pub identity : Sha256

-- LeanResolutionModeV1
pub data Mode : Type 0 where
  frozen : Mode
  update : (packages : List PackageKey) → Mode

-- LeanResolutionOriginV1
pub data Origin : Type 0 where
  root : (declaration_index : ℕ) → Origin
  from_package : (parent : PackageKey) (declaration_index : ℕ) → Origin

-- LeanShadowDecisionV1
pub record Shadow : Type 0 where
  pub package_key : PackageKey
  pub selected_candidate : Sha256
  pub winner : Origin
  pub shadowed : Origin

-- LeanResolutionConflictV1
pub record Conflict : Type 0 where
  pub package_key : PackageKey
  pub winner : Origin
  pub conflicting : Origin
  pub selected_candidate : Sha256

-- LeanResolutionError
pub record ResolutionError : Type 0 where
  pub kind : ErrorKind
  pub conflict : Option Conflict

abbrev pub error : ErrorKind → ResolutionError
error kind = record { kind = kind; conflict = none }

-- LeanResolvedPackageV1
pub record ResolvedPackage : Type 0 where
  pub candidate : Candidate
  pub dependencies : List PackageKey

-- SelectedCandidate
pub record Selected : Type 0 where
  pub candidate : Candidate
  pub winner : Origin

-- validate_source_pair: whether the pair is accepted
unfoldable pub is_source_pair : SourceRequest → ExactSource → Option Sha256 → Sha256 → Bool
unfolding bytes_equal option_equal
is_source_pair (SourceRequest.git url _ subdir) (ExactSource.git resolved_url _ resolved_subdir)
      (some _) _ =
    url == resolved_url && subdir == resolved_subdir
is_source_pair (SourceRequest.reservoir _) (ExactSource.git _ _ _) (some _) _ = true
is_source_pair (SourceRequest.path token) (ExactSource.path resolved_token source_identity) none
      selected =
    token == resolved_token && source_identity == selected
is_source_pair _ _ _ _ = false

unfoldable pub source_matches : SourceRequest → SourceRequest → ExactSource → Bool
unfolding bytes_equal option_equal
source_matches (SourceRequest.git url revision subdir)
      (SourceRequest.git candidate_url candidate_revision candidate_subdir)
      (ExactSource.git resolved_url _ resolved_subdir) =
    url == candidate_url
    && url == resolved_url
    && revision == candidate_revision
    && subdir == candidate_subdir
    && subdir == resolved_subdir
source_matches (SourceRequest.reservoir version) (SourceRequest.reservoir candidate_version)
      (ExactSource.git _ _ _) =
    version == candidate_version
source_matches (SourceRequest.path token) (SourceRequest.path candidate_token)
      (ExactSource.path resolved_token _) =
    token == candidate_token && token == resolved_token
source_matches _ _ _ = false

unfoldable pub request_matches_candidate : SourceRequest → Candidate → Bool
unfolding source_matches
request_matches_candidate requirement candidate =
    source_matches requirement candidate.requested candidate.resolved
