-- ===== src/State/BuildLock.antt =====
-- The decisions of rust/crates/leanbun-state/src/lib.rs on the lock of a build, with the key of
-- rust/crates/leanbun-evidence/src/build_lock.rs.
use leanbun.Base.{
  ℕ, not, List, [], ◌∷◌, ◌++◌, if◌then◌else◌, Result, ok, err, ◌>>=◌, Equal, ◌==◌, bytes_equal,
  bytes, ℕ_discrete,
}
use leanbun.Core.Sha256.{new, update, finalize}
use leanbun.Core.Identity.{display_sha256}
use leanbun.Lock.Model.{Text, Sha256}

pub data LockPublicationStep : Type 0 where
  verify_direct_contained_store : LockPublicationStep
  create_exclusive_no_follow : LockPublicationStep
  write_canonical_v1 : LockPublicationStep
  sync_written_file : LockPublicationStep
  set_mode_read_only_0444 : LockPublicationStep
  sync_read_only_file : LockPublicationStep
  sync_store_directory : LockPublicationStep
  strict_readback : LockPublicationStep
  unlink_exact_observed_lock : LockPublicationStep

abbrev pub acquire_publication_protocol_v1 : List LockPublicationStep
acquire_publication_protocol_v1 =
    LockPublicationStep.verify_direct_contained_store
    ∷ LockPublicationStep.create_exclusive_no_follow ∷ LockPublicationStep.write_canonical_v1
    ∷ LockPublicationStep.sync_written_file ∷ LockPublicationStep.set_mode_read_only_0444
    ∷ LockPublicationStep.sync_read_only_file ∷ LockPublicationStep.sync_store_directory
    ∷ LockPublicationStep.strict_readback ∷ []

abbrev pub release_publication_protocol_v1 : List LockPublicationStep
release_publication_protocol_v1 =
    LockPublicationStep.verify_direct_contained_store ∷ LockPublicationStep.strict_readback
    ∷ LockPublicationStep.unlink_exact_observed_lock ∷ LockPublicationStep.sync_store_directory ∷ []

pub data StateRootScope : Type 0 where
  newly_created_isolated_root_only : StateRootScope

pub data FilesystemMutationAuthority : Type 0 where
  withheld : FilesystemMutationAuthority

pub data LockPublicationInvariant : Type 0 where
  never_replace_existing_lock : LockPublicationInvariant
  never_delete_unowned_lock : LockPublicationInvariant
  cleanup_only_newly_created_lock : LockPublicationInvariant
  strict_readback_before_success : LockPublicationInvariant
  sync_directory_after_mutation : LockPublicationInvariant

abbrev pub lock_publication_invariants_v1 : List LockPublicationInvariant
lock_publication_invariants_v1 =
    LockPublicationInvariant.never_replace_existing_lock
    ∷ LockPublicationInvariant.never_delete_unowned_lock
    ∷ LockPublicationInvariant.cleanup_only_newly_created_lock
    ∷ LockPublicationInvariant.strict_readback_before_success
    ∷ LockPublicationInvariant.sync_directory_after_mutation ∷ []

-- BuildLockPublicationContractV1
pub record PublicationContract : Type 0 where
  pub state_root_scope : StateRootScope
  pub filesystem_mutation_authority : FilesystemMutationAuthority
  pub acquire_protocol : List LockPublicationStep
  pub release_protocol : List LockPublicationStep
  pub invariants : List LockPublicationInvariant

abbrev pub build_lock_publication_contract_v1 : PublicationContract
build_lock_publication_contract_v1 = record {
  state_root_scope = StateRootScope.newly_created_isolated_root_only;
  filesystem_mutation_authority = FilesystemMutationAuthority.withheld;
  acquire_protocol = acquire_publication_protocol_v1;
  release_protocol = release_publication_protocol_v1;
  invariants = lock_publication_invariants_v1;
}

-- BuildExecutionLockV1
pub record ExecutionLock : Type 0 where
  pub key : Sha256
  pub execution_id : Text
  pub project_id : Sha256
  pub project_path : Text
  pub image_id : Sha256
  pub target : Text
  pub coordinator_pid : ℕ
  pub acquired_at : Text

-- BuildLockOwnershipV1
pub record Ownership : Type 0 where
  pub key : Sha256
  pub execution_id : Text
  pub project_id : Sha256
  pub image_id : Sha256

Ownership-discrete : Discrete Ownership
Ownership-discrete = hlevel ℕ_discrete

instance unfoldable pub ownership_equal : Equal Ownership
unfolding Ownership-discrete ℕ_discrete
ownership_equal = record { discrete = Ownership-discrete }

-- BuildLockObservation
pub data Observation : Type 0 where
  absent : Observation
  held : ExecutionLock → Observation

pub data AcquireDecision : Type 0 where
  publish_new : (document : ExecutionLock) (protocol : List LockPublicationStep) → AcquireDecision
  busy : (owner : Ownership) → AcquireDecision

pub data ReleaseDecision : Type 0 where
  already_released : ReleaseDecision
  remove_owned : (owner : Ownership) (protocol : List LockPublicationStep) → ReleaseDecision

-- the diagnostic codes of StateTransitionError
pub data TransitionError : Type 0 where
  build_lock_failed : TransitionError
  build_lock_conflict : TransitionError

-- the identities print as their digests do
unfoldable pub build_lock_key : Sha256 → Sha256 → Sha256
unfolding new update finalize display_sha256
build_lock_key project image =
    let material =
      bytes "{\"schema\":\"leanbun-build-lock-v1\",\"projectId\":\""
      ++ (display_sha256 project
          ++ (bytes "\",\"imageId\":\"" ++ (display_sha256 image ++ bytes "\"}"))) in
    finalize (update new material)

-- BuildLockOwnershipV1::new
unfoldable pub make_ownership : Sha256 → Text → Sha256 → Sha256 → Result TransitionError Ownership
unfolding build_lock_key bytes_equal
make_ownership key execution project image =
    if not (key == build_lock_key project image)
    then err TransitionError.build_lock_failed
    else ok (record { key = key; execution_id = execution; project_id = project; image_id = image })

-- BuildLockOwnershipV1::from_lock
unfoldable pub from_lock : ExecutionLock → Result TransitionError Ownership
unfolding make_ownership
from_lock lock = make_ownership lock.key lock.execution_id lock.project_id lock.image_id

-- `map_err` on an observed lock
unfoldable pub from_observed : ExecutionLock → Result TransitionError Ownership
unfolding from_lock
from_observed lock = elim (from_lock lock) [
  | ok owner ↦ ok owner
  | err _ ↦ err TransitionError.build_lock_conflict
]

unfoldable pub decide_acquire : Observation → ExecutionLock → Result TransitionError AcquireDecision
unfolding from_lock from_observed
decide_acquire observation requested = from_lock requested >>= λ _. elim observation [
  | absent ↦ ok (AcquireDecision.publish_new requested acquire_publication_protocol_v1)
  | held existing ↦ from_observed existing >>= λ owner. ok (AcquireDecision.busy owner)
]

unfoldable pub release_observed : Ownership → Ownership → Result TransitionError ReleaseDecision
unfolding ownership_equal
release_observed observed expected =
    if not (observed == expected)
    then err TransitionError.build_lock_conflict
    else ok (ReleaseDecision.remove_owned observed release_publication_protocol_v1)

unfoldable pub decide_release : Observation → Ownership → Result TransitionError ReleaseDecision
unfolding from_observed release_observed
decide_release absent expected = ok ReleaseDecision.already_released
decide_release (held existing) expected =
    from_observed existing >>= λ observed. release_observed observed expected
