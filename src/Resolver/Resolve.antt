-- ===== src/Resolver/Resolve.antt =====
-- LeanResolutionRequestV1, LeanPackageCandidateV1::new and resolve_lean_dependencies_v1 of
-- rust/crates/leanbun-resolver/src/model.rs.
pub mod Kept
pub mod Chosen
pub mod Complete
pub mod Ending
pub mod Acyclic
use Prim.Native.Nat.{Ordering, compare}
use Prim.Native.Nat.Ordering.{lt, eq, gt}
use leanbun.Base.{
  ℕ, zero, suc, ◌+◌, Bool, true, false, not, ◌&&◌, ◌||◌, List, [], ◌∷◌, ◌++◌, map, Option, none,
  some, length, ltb, if◌then◌else◌, Result, ok, err, ◌>>=◌, ◌>>◌, reject_if, ◌==◌, bytes_equal,
  sort_by, dedup, has_repeat, compare_bytes, reverse,
}
use leanbun.Base.TreeMap.{TreeMap, get, insert}
use leanbun.Lock.Model
use leanbun.Lock.Model.{Text, Sha256, PackageKey, key_equal, key_ord, compare_keys}
pub use leanbun.Lake.Model.{LakeSource, RootDependency, RootDeclaration}
use leanbun.Lock.Fields.{parse_url}
use leanbun.Resolver.Model.{
  ErrorKind, ResolutionError, error, Toolchain, SourceRequest, Requirement, Candidate, Mode, Origin,
  Shadow, Selected, ResolvedPackage, is_source_pair,
}
use leanbun.Resolver.Fields.{request_git, request_reservoir, request_path, update_set}
use leanbun.Resolver.Selecting.{
  Context, Selection, Registry, dependency_keys, select_requirement, drain,
}
use leanbun.Resolver.Selecting.Ending.{potential}
use leanbun.Resolver.Identity.{candidate_identity, graph_identity}
use leanbun.Resolver.Cycles.{validate_cycles_and_depth}
use leanbun.Resolver.Impact.{lock_map, validate_mode_result}

-- LeanResolutionRequestV1
pub record Request : Type 0 where
  pub root : RootDeclaration
  pub active_lock : Option Model.Lock
  pub mode : Mode
  pub toolchain : Toolchain

-- LeanResolutionGraphV1
pub record ResolutionGraph : Type 0 where
  pub toolchain : Toolchain
  pub root_declaration_identity : Sha256
  pub packages : List ResolvedPackage
  pub root_packages : List PackageKey
  pub resolution_order : List PackageKey
  pub shadows : List Shadow
  pub impact_closure : List PackageKey
  pub identity : Sha256

abbrev Resolved : Type 0 → Type 0
Resolved A = Result ResolutionError A

-- LeanPackageCandidateV1::new: the argument holds the constructor's arguments as fields
unfoldable pub make_candidate : Candidate → Resolved Candidate
unfolding is_source_pair candidate_identity
make_candidate c =
    reject_if (ltb 4096 (length c.dependencies)) (error ErrorKind.limit_exceeded)
    >> reject_if
        (not
          (is_source_pair c.requested c.resolved c.download_integrity c.selected_source_identity))
        (error ErrorKind.source_kind_conflict)
    >> ok (record c { identity = candidate_identity c })

-- `matches!(mode, Frozen) && active_lock.is_none()`
unfoldable pub lacks_lock : Mode → Option Model.Lock → Bool
lacks_lock Mode.frozen none = true
lacks_lock _ _ = false

unfoldable pub differs_from_lock : RootDeclaration → Toolchain → Option Model.Lock → Bool
unfolding bytes_equal
differs_from_lock root toolchain none = false
differs_from_lock root toolchain (some lock) =
    not (lock.lean_toolchain == toolchain.lean_toolchain)
    || not (lock.lean_compiler_githash == toolchain.compiler_githash)
    || not (lock.lake_version == toolchain.lake_version)
    || not (lock.root_declaration_sha256 == root.identity)

-- LeanResolutionRequestV1::new
unfoldable pub make_request : Request → Resolved Request
unfolding lacks_lock differs_from_lock
make_request r =
    reject_if (lacks_lock r.mode r.active_lock) (error ErrorKind.active_lock_required)
    >> reject_if (differs_from_lock r.root r.toolchain r.active_lock)
        (error ErrorKind.active_lock_mismatch)
    >> ok r

-- `map_err(|error| invalid(error.to_string()))`
unfoldable pub checked_url : Text → Resolved Text
unfolding parse_url
checked_url url = elim (parse_url url) [
  | ok canonical ↦ ok canonical
  | err _ ↦ err (error ErrorKind.invalid_field)
]

-- LeanSourceRequestV1::from_root
unfoldable pub from_root : Option Text → LakeSource → Resolved SourceRequest
unfolding checked_url request_git request_path request_reservoir
from_root version (LakeSource.git url revision subdir) =
    checked_url url >>= λ canonical. request_git canonical revision subdir
from_root version (LakeSource.path directory) = request_path directory
from_root version LakeSource.reservoir = request_reservoir version

-- the root's requirements with their indices; the first failure is the result
unfoldable pub root_requirements : ℕ → List RootDependency → Resolved (List (ℕ × Requirement))
unfolding from_root
root_requirements index [] = ok []
root_requirements index (d ∷ ds) = from_root d.version d.source >>= λ source.
    root_requirements (index + 1) ds >>= λ rest.
    ok ((index, record { key = d.key; source = source }) ∷ rest)

-- `for (requirement, origin) in root_requirements.into_iter().rev()`, with the keys that are pushed
unfoldable pub select_roots :
    Context
    → List (ℕ × Requirement)
    → Selection × List PackageKey
    → Resolved (Selection × List PackageKey)
unfolding select_requirement
select_roots ctx [] state = ok state
select_roots ctx ((i, r) ∷ rest) (s, roots) = select_requirement ctx r (Origin.root i) s >>= λ t.
    select_roots ctx rest (t, roots ++ r.key ∷ [])

-- `left.key.cmp(&right.key).then(left.identity.cmp(&right.identity))`
unfoldable pub compare_candidates : Candidate → Candidate → Ordering
unfolding compare_keys compare_bytes
compare_candidates a b = elim (compare_keys a.key b.key) [
  | lt ↦ lt
  | gt ↦ gt
  | eq ↦ compare_bytes a.identity b.identity
]

-- `registry.entry(candidate.key.clone()).or_default().push(candidate)`
unfoldable pub push_candidate : Candidate → Registry → Registry
unfolding get insert key_ord
push_candidate c registry = elim (get c.key registry) [
  | none ↦ insert c.key (c ∷ []) registry
  | some cs ↦ insert c.key (cs ++ c ∷ []) registry
]

unfoldable pub build_registry : List Candidate → Registry → Registry
unfolding push_candidate
build_registry [] registry = registry
build_registry (c ∷ cs) registry = build_registry cs (push_candidate c registry)

-- the derived order of LeanResolutionOriginV1
unfoldable pub compare_origins : Origin → Origin → Ordering
unfolding compare_keys
compare_origins (Origin.root i) (Origin.root j) = compare i j
compare_origins (Origin.root _) (Origin.from_package _ _) = lt
compare_origins (Origin.from_package _ _) (Origin.root _) = gt
compare_origins (Origin.from_package p i) (Origin.from_package q j) = elim (compare_keys p q) [
  | lt ↦ lt
  | gt ↦ gt
  | eq ↦ compare i j
]

unfoldable pub compare_shadows : Shadow → Shadow → Ordering
unfolding compare_keys compare_origins
compare_shadows a b = elim (compare_keys a.package_key b.package_key) [
  | lt ↦ lt
  | gt ↦ gt
  | eq ↦ elim (compare_origins a.winner b.winner) [
    | lt ↦ lt
    | gt ↦ gt
    | eq ↦ compare_origins a.shadowed b.shadowed
  ]
]

unfoldable pub resolved_package : Selected → ResolvedPackage
unfolding dependency_keys
resolved_package s = record {
  candidate = s.candidate;
  dependencies = dependency_keys s.candidate.dependencies;
}

-- `selected.into_values().map(..)`, sorted by their keys
unfoldable pub resolved_packages : TreeMap PackageKey Selected → List ResolvedPackage
unfolding resolved_package sort_by compare_keys
resolved_packages selected =
    sort_by (λ a b. compare_keys a.candidate.key b.candidate.key)
      (map (λ (_, s). resolved_package s) selected)

unfoldable pub context_of : Request → List Candidate → Context
unfolding build_registry lock_map update_set
context_of request sorted = record {
  toolchain = request.toolchain;
  registry = build_registry sorted [];
  active = elim request.active_lock [ none ↦ none | some lock ↦ some (lock_map lock.packages []) ];
  update_set = update_set request.mode;
}

abbrev pub empty_selection : Selection
empty_selection = record { selected = []; queue = []; resolution_order = []; shadows = [] }

unfoldable pub locked_packages : Option Model.Lock → Option (List Model.LockedPackage)
locked_packages none = none
locked_packages (some lock) = some lock.packages

-- what follows the selection
unfoldable pub finish_graph : Request → List PackageKey → Selection → Resolved ResolutionGraph
unfolding resolved_packages validate_cycles_and_depth sort_by dedup compare_keys key_equal
    compare_shadows validate_mode_result update_set graph_identity locked_packages
finish_graph request roots s =
    let packages = resolved_packages s.selected in
    let root_packages = dedup (sort_by compare_keys roots) in
    let shadows = sort_by compare_shadows s.shadows in
    reject_if (ltb 4096 (length s.selected)) (error ErrorKind.limit_exceeded)
    >> validate_cycles_and_depth packages
    >> validate_mode_result (locked_packages request.active_lock) request.mode packages
        (update_set request.mode)
    >>= λ impact. ok (record {
      toolchain = request.toolchain;
      root_declaration_identity = request.root.identity;
      packages = packages;
      root_packages = root_packages;
      resolution_order = s.resolution_order;
      shadows = shadows;
      impact_closure = impact;
      identity =
          graph_identity request.toolchain request.root.identity packages root_packages
            s.resolution_order shadows impact;
    })

-- resolve_lean_dependencies_v1; the loop over the queue has the fuel that it needs
unfoldable pub resolve : Request → List Candidate → Resolved ResolutionGraph
unfolding sort_by compare_candidates has_repeat bytes_equal root_requirements select_roots drain
    potential context_of finish_graph
resolve request candidates =
    let sorted = sort_by compare_candidates candidates in
    let ctx = context_of request sorted in
    reject_if (ltb 16384 (length candidates)) (error ErrorKind.limit_exceeded)
    >> reject_if (has_repeat (map (λ c. c.identity) sorted))
        (error ErrorKind.duplicate_candidate_identity)
    >> root_requirements 0 request.root.dependencies
    >>= λ requirements.
        select_roots ctx (reverse requirements) (empty_selection, []) >>= λ (s, roots).
        drain (potential ctx s + 1) ctx s >>= λ t. finish_graph request roots t
