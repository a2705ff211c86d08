-- ===== src/Resolver/Selecting/Defs.antt =====
-- candidate_matches_lock, select_requirement and the loops that call it.
use leanbun.Base.{
  ℕ, zero, suc, ◌+◌, List, [], ◌∷◌, ◌++◌, map, Option, none, some, Bool, true, false, not, ◌&&◌,
  ◌==◌, bytes_equal, filter, any, if◌then◌else◌, Result, ok, err, ◌>>=◌, sort_by, dedup, eqb,
  reverse,
}
use leanbun.Base.TreeMap.{TreeMap, get, insert}
use leanbun.Lock.Model.{
  Sha256, PackageKey, key_equal, keys_equal, option_equal, key_ord, compare_keys, RequestedSource,
  ResolvedSource, LockedPackage,
}
use leanbun.Resolver.Model.{
  ErrorKind, ResolutionError, error, Toolchain, toolchain_equal, SourceRequest, kind_tag,
  ExactSource, Requirement, Candidate, Origin, Shadow, Selected, request_matches_candidate,
}

-- the two matches on sources at the end of candidate_matches_lock
unfoldable pub requested_matches_lock : SourceRequest → RequestedSource → Bool
unfolding bytes_equal option_equal
requested_matches_lock (SourceRequest.git url revision _) (RequestedSource.git locked_url locked) =
    url == locked_url && revision == locked
requested_matches_lock (SourceRequest.path token) (RequestedSource.path_snapshot locked) =
    token == locked
requested_matches_lock (SourceRequest.reservoir _) (RequestedSource.git _ _) = true
requested_matches_lock _ _ = false

unfoldable pub resolved_matches_lock : ExactSource → ResolvedSource → Sha256 → Bool
unfolding bytes_equal option_equal
resolved_matches_lock (ExactSource.git url revision subdir)
      (ResolvedSource.git locked_url locked_revision locked_subdir) selected =
    url == locked_url && revision == locked_revision && subdir == locked_subdir
resolved_matches_lock (ExactSource.path token source_identity) (ResolvedSource.path_snapshot locked)
      selected =
    token == locked && source_identity == selected
resolved_matches_lock _ _ _ = false

-- the keys of the dependencies, sorted and without repetition
unfoldable pub dependency_keys : List Requirement → List PackageKey
unfolding sort_by dedup key_equal compare_keys
dependency_keys requirements = dedup (sort_by compare_keys (map (λ d. d.key) requirements))

unfoldable pub candidate_matches_lock : Candidate → LockedPackage → Bool
unfolding requested_matches_lock resolved_matches_lock dependency_keys bytes_equal option_equal
    key_equal keys_equal
candidate_matches_lock candidate package_ =
    candidate.key == package_.key
    && candidate.download_integrity == package_.download_integrity
    && candidate.source_tree_sha256 == package_.source_tree_sha256
    && candidate.config_sha256 == package_.config_sha256
    && candidate.manifest_sha256 == package_.manifest_sha256
    && candidate.selected_source_identity == package_.selected_source_identity
    && dependency_keys candidate.dependencies == package_.dependencies
    && requested_matches_lock candidate.requested package_.requested
    && resolved_matches_lock candidate.resolved package_.resolved package_.selected_source_identity

abbrev pub Registry : Type 0
Registry = TreeMap PackageKey (List Candidate)

abbrev pub ActiveLock : Type 0
ActiveLock = TreeMap PackageKey LockedPackage

-- What the loops only read.
pub record Context : Type 0 where
  pub toolchain : Toolchain
  pub registry : Registry
  pub active : Option ActiveLock
  pub update_set : List PackageKey

-- What the loops change.
pub record Selection : Type 0 where
  pub selected : TreeMap PackageKey Selected
  pub queue : List PackageKey
  pub resolution_order : List PackageKey
  pub shadows : List Shadow

-- `update_set.contains(key)`
unfoldable pub is_update_target : PackageKey → List PackageKey → Bool
unfolding key_equal
is_update_target key targets = any (λ t. t == key) targets

-- `active.and_then(..).filter(..)`
unfoldable pub pinned : Context → PackageKey → Option LockedPackage
unfolding is_update_target get key_ord
pinned ctx key = elim ctx.active [
  | none ↦ none
  | some packages ↦ if is_update_target key ctx.update_set then none else get key packages
]

unfoldable pub is_none_or {ℓ} : {A : Type ℓ} → Option A → (A → Bool) → Bool
is_none_or none test = true
is_none_or (some a) test = test a

-- the test by which `available` is filtered
unfoldable pub eligible : Context → Requirement → Candidate → Bool
unfolding request_matches_candidate candidate_matches_lock pinned is_none_or
eligible ctx requirement candidate =
    request_matches_candidate requirement.source candidate
    && is_none_or (pinned ctx requirement.key) (λ p. candidate_matches_lock candidate p)

unfoldable pub toolchain_agrees : Context → Candidate → Bool
unfolding is_none_or toolchain_equal
toolchain_agrees ctx candidate = is_none_or candidate.toolchain_candidate (λ t. t == ctx.toolchain)

-- a candidate that was selected before: the requirement is shadowed, or in conflict
unfoldable pub shadow_existing :
    Requirement → Origin → Selected → Selection → Result ResolutionError Selection
unfolding request_matches_candidate
shadow_existing requirement origin existing s =
    if not (request_matches_candidate requirement.source existing.candidate)
    then err (record {
      kind = ErrorKind.source_value_conflict;
      conflict = some (record {
        package_key = requirement.key;
        winner = existing.winner;
        conflicting = origin;
        selected_candidate = existing.candidate.identity;
      });
    })
    else ok (record s {
      shadows =
          s.shadows
          ++ record {
            package_key = requirement.key;
            winner = existing.winner;
            shadowed = origin;
            selected_candidate = existing.candidate.identity;
          }
            ∷ [];
    })

-- the end of select_requirement, where one candidate matches
unfoldable pub accept : Context → Origin → Candidate → Selection → Result ResolutionError Selection
unfolding toolchain_agrees insert key_ord
accept ctx origin candidate s =
    if not (toolchain_agrees ctx candidate)
    then err (error ErrorKind.toolchain_candidate_conflict)
    else ok (record s {
      selected =
          insert candidate.key (record { candidate = candidate; winner = origin }) s.selected;
      queue = s.queue ++ candidate.key ∷ [];
      resolution_order = s.resolution_order ++ candidate.key ∷ [];
    })

unfoldable pub accept_only :
    Context
    → Requirement
    → Origin
    → List Candidate
    → List Candidate
    → Selection
    → Result ResolutionError Selection
unfolding accept kind_tag
accept_only ctx requirement origin available [] s =
    if any (λ c. eqb (kind_tag c.requested) (kind_tag requirement.source)) available
    then err (error ErrorKind.source_value_conflict)
    else err (error ErrorKind.source_kind_conflict)
accept_only ctx requirement origin available (candidate ∷ []) s = accept ctx origin candidate s
accept_only ctx requirement origin available (_ ∷ _ ∷ _) s =
    err (error ErrorKind.ambiguous_candidate)

unfoldable pub select_new :
    Context
    → Requirement
    → Origin
    → Option (List Candidate)
    → Selection
    → Result ResolutionError Selection
unfolding accept_only eligible filter
select_new ctx requirement origin none s = err (error ErrorKind.missing_transitive_declaration)
select_new ctx requirement origin (some available) s =
    accept_only ctx requirement origin available (filter (eligible ctx requirement) available) s

unfoldable pub select_requirement :
    Context → Requirement → Origin → Selection → Result ResolutionError Selection
unfolding shadow_existing select_new get key_ord
select_requirement ctx requirement origin s = elim (get requirement.key s.selected) [
  | some existing ↦ shadow_existing requirement origin existing s
  | none ↦ select_new ctx requirement origin (get requirement.key ctx.registry) s
]

-- `for (index, requirement) in requirements.iter().enumerate().rev()`
unfoldable pub number_from : ℕ → List Requirement → List (ℕ × Requirement)
number_from n [] = []
number_from n (r ∷ rs) = (n, r) ∷ number_from (n + 1) rs

unfoldable pub select_all :
    Context → (ℕ → Origin) → List (ℕ × Requirement) → Selection → Result ResolutionError Selection
unfolding select_requirement
select_all ctx origin [] s = ok s
select_all ctx origin ((i, r) ∷ rest) s =
    select_requirement ctx r (origin i) s >>= select_all ctx origin rest

unfoldable pub select_reversed :
    Context → (ℕ → Origin) → List Requirement → Selection → Result ResolutionError Selection
unfolding number_from select_all
select_reversed ctx origin requirements s =
    select_all ctx origin (reverse (number_from 0 requirements)) s

-- the body of `while let Some(parent_key) = queue.pop_front()`
unfoldable pub expand : Context → PackageKey → Selection → Result ResolutionError Selection
unfolding select_reversed get key_ord
expand ctx parent s = elim (get parent s.selected) [
  | none ↦ err (error ErrorKind.invalid_field)
  | some entry ↦ select_reversed ctx (Origin.from_package parent) entry.candidate.dependencies s
]

-- Each round takes a key off the queue, and each key is queued once, when it is selected.
unfoldable pub drain : ℕ → Context → Selection → Result ResolutionError Selection
unfolding expand
drain zero ctx s = err (error ErrorKind.out_of_fuel)
drain (suc fuel) ctx s = elim s.queue [
  | [] ↦ ok s
  | parent ∷ rest ↦ expand ctx parent (record s { queue = rest }) >>= drain fuel ctx
]
