-- ===== src/Reservoir/Policy.antt =====
-- rust/crates/leanbun-resolver/src/reservoir_policy_v1.rs: whether what the registry says now agrees
-- with the binding in force.
use leanbun.Base.{
  ℕ, Bool, not, ◌||◌, ◌&&◌, List, [], ◌∷◌, ◌++◌, Option, none, some, length, ltb, if◌then◌else◌,
  Result, ok, err, ◌>>◌, reject_if, ◌==◌, bytes_equal, bytes,
}
use leanbun.Core.Sha256.{new, update, finalize}
use leanbun.Lock.Model.{Text, Sha256, PackageKey, key_equal}
use leanbun.Core.Framing.{hash_string}
use leanbun.Reservoir.Binding.{Binding}

pub data PolicyErrorKind : Type 0 where
  invalid_scope : PolicyErrorKind
  invalid_authorization : PolicyErrorKind
  limit_exceeded : PolicyErrorKind

pub record Authorization : Type 0 where
  pub registry : Sha256
  pub key : PackageKey
  pub requested_version : Text
  pub old_commit : Text
  pub new_commit : Text
  pub observed_metadata_sha256 : Sha256
  pub active_binding_identity : Sha256
  pub proposed_binding_identity : Sha256
  pub identity : Sha256

pub data Outcome : Type 0 where
  first_resolution_pending : (proposed_binding_identity : Sha256) → Outcome
  stable_binding : (active_binding_identity : Sha256) → Outcome
  ambiguous_candidates : (observation_count : ℕ) → Outcome
  metadata_drift : (active_binding_identity observed_metadata_sha256 : Sha256) → Outcome
  version_rebound : (active_binding_identity proposed_binding_identity : Sha256) → Outcome
  disappeared_binding : (active_binding_identity : Option Sha256) → Outcome
  content_mismatch : (active_binding_identity proposed_binding_identity : Sha256) → Outcome
  explicit_rebind_accepted : (authorization_identity proposed_binding_identity : Sha256) → Outcome

unfoldable pub require_same_scope : Binding → Binding → Result PolicyErrorKind (Unit {0})
unfolding bytes_equal key_equal
require_same_scope active proposed =
    reject_if
      (not (active.registry == proposed.registry)
        || not (active.key == proposed.key)
        || not (active.requested_version == proposed.requested_version))
      PolicyErrorKind.invalid_scope

abbrev pub authorization_domain : Text
authorization_domain = bytes "leanbun-reservoir-rebind-authorization-v1" ++ 0 ∷ []

unfoldable pub authorization_identity : Binding → Binding → Sha256
unfolding new update finalize hash_string
authorization_identity active proposed =
    let h1 = update (update new authorization_domain) active.registry in
    let h2 = hash_string active.key.name (hash_string active.key.scope h1) in
    let h3 = hash_string active.exact_commit (hash_string active.requested_version h2) in
    let h4 = update (hash_string proposed.exact_commit h3) proposed.metadata_sha256 in
    finalize (update (update h4 active.identity) proposed.identity)

-- the value that the constructor returns
abbrev pub authorization_for : Binding → Binding → Authorization
authorization_for active proposed = record {
  registry = active.registry;
  key = active.key;
  requested_version = active.requested_version;
  old_commit = active.exact_commit;
  new_commit = proposed.exact_commit;
  observed_metadata_sha256 = proposed.metadata_sha256;
  active_binding_identity = active.identity;
  proposed_binding_identity = proposed.identity;
  identity = authorization_identity active proposed;
}

-- ReservoirRebindAuthorizationV1::new
unfoldable pub authorize : Binding → Binding → Result PolicyErrorKind Authorization
unfolding require_same_scope authorization_identity bytes_equal
authorize active proposed =
    require_same_scope active proposed
    >> reject_if (active.exact_commit == proposed.exact_commit)
        PolicyErrorKind.invalid_authorization
    >> ok (authorization_for active proposed)

-- ReservoirRebindAuthorizationV1::matches
unfoldable pub matches : Authorization → Binding → Binding → Bool
unfolding bytes_equal key_equal
matches a active proposed =
    a.registry == active.registry
    && a.registry == proposed.registry
    && a.key == active.key
    && a.key == proposed.key
    && a.requested_version == active.requested_version
    && a.requested_version == proposed.requested_version
    && a.old_commit == active.exact_commit
    && a.new_commit == proposed.exact_commit
    && a.observed_metadata_sha256 == proposed.metadata_sha256
    && a.active_binding_identity == active.identity
    && a.proposed_binding_identity == proposed.identity

-- `authorization.is_some()`
unfoldable pub reject_authorization : Option Authorization → Result PolicyErrorKind (Unit {0})
reject_authorization none = ok tt
reject_authorization (some a) = err PolicyErrorKind.invalid_authorization

-- no binding is in force
unfoldable pub first_outcome : List Binding → Outcome
first_outcome [] = Outcome.disappeared_binding none
first_outcome (proposed ∷ []) = Outcome.first_resolution_pending proposed.identity
first_outcome observations = Outcome.ambiguous_candidates (length observations)

-- the last tests, where the bindings differ and nothing is authorised
unfoldable pub difference : Binding → Binding → Outcome
unfolding bytes_equal
difference active proposed =
    if not (active.exact_commit == proposed.exact_commit)
    then Outcome.version_rebound active.identity proposed.identity
    else if not (active.resolved_url == proposed.resolved_url)
        || not (active.download_integrity == proposed.download_integrity)
        || not (active.source_tree_sha256 == proposed.source_tree_sha256)
        || not (active.selected_source_identity == proposed.selected_source_identity)
    then Outcome.content_mismatch active.identity proposed.identity
    else Outcome.metadata_drift active.identity proposed.metadata_sha256

unfoldable pub changed_outcome :
    Binding → Binding → Option Authorization → Result PolicyErrorKind Outcome
unfolding matches difference
changed_outcome active proposed none = ok (difference active proposed)
changed_outcome active proposed (some a) =
    if not (matches a active proposed)
    then err PolicyErrorKind.invalid_authorization
    else ok (Outcome.explicit_rebind_accepted a.identity proposed.identity)

-- one observation
unfoldable pub single_outcome :
    Binding → Binding → Option Authorization → Result PolicyErrorKind Outcome
unfolding bytes_equal reject_authorization changed_outcome
single_outcome active proposed authorization =
    if proposed.identity == active.identity
    then reject_authorization authorization >> ok (Outcome.stable_binding active.identity)
    else changed_outcome active proposed authorization

unfoldable pub active_outcome :
    Binding → List Binding → Option Authorization → Result PolicyErrorKind Outcome
unfolding reject_authorization single_outcome
active_outcome active [] authorization =
    reject_authorization authorization >> ok (Outcome.disappeared_binding (some active.identity))
active_outcome active (proposed ∷ []) authorization = single_outcome active proposed authorization
active_outcome active (a ∷ b ∷ rest) authorization =
    reject_authorization authorization >> ok (Outcome.ambiguous_candidates (length (a ∷ b ∷ rest)))

unfoldable pub require_all_same_scope : Binding → List Binding → Result PolicyErrorKind (Unit {0})
unfolding require_same_scope
require_all_same_scope active [] = ok tt
require_all_same_scope active (o ∷ rest) =
    require_same_scope active o >> require_all_same_scope active rest

-- evaluate_reservoir_binding_v1
unfoldable pub evaluate :
    Option Binding → List Binding → Option Authorization → Result PolicyErrorKind Outcome
unfolding reject_authorization first_outcome require_all_same_scope active_outcome
evaluate active observations authorization =
    reject_if (ltb 4096 (length observations)) PolicyErrorKind.limit_exceeded >> elim active [
      | none ↦ reject_authorization authorization >> ok (first_outcome observations)
      | some binding ↦
          require_all_same_scope binding observations
          >> active_outcome binding observations authorization
    ]
