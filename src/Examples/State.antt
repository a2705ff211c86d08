-- ===== src/Examples/State.antt =====
-- Two executions that want the same lock.
use leanbun.Base.{
  ℕ, get_or, List, [], ◌∷◌, ◌≡◌, ◌⊎◌, ◌↔◌, ◌++◌, ap, inl, inr, Within, ok, bytes, replicate, arith,
  ==_refl, bytes_equal,
}
use leanbun.State.BuildLock.{
  ExecutionLock, Ownership, Observation, build_lock_key, make_ownership, from_lock,
}
use leanbun.State.Exclusion.{
  Event, run, IsConsistent, run-IsConsistent, run_exclusive, run-acquire_release,
}

abbrev lock_of : List ℕ → ExecutionLock
lock_of execution = record {
  key = build_lock_key (replicate 32 1) (replicate 32 2);
  execution_id = execution;
  project_id = replicate 32 1;
  project_path = bytes "/p";
  image_id = replicate 32 2;
  target = bytes "T";
  coordinator_pid = 7;
  acquired_at = bytes "now";
}

abbrev owner_of : List ℕ → Ownership
owner_of execution = record {
  key = build_lock_key (replicate 32 1) (replicate 32 2);
  execution_id = execution;
  project_id = replicate 32 1;
  image_id = replicate 32 2;
}

first_owner : from_lock (lock_of (bytes "1")) ≡ ok (owner_of (bytes "1"))
unfolding from_lock make_ownership
first_owner = ground (arith, ==_refl (build_lock_key (replicate 32 1) (replicate 32 2)))

abbrev attempts : List Event
attempts = Event.acquire (lock_of (bytes "2")) ∷ Event.release (owner_of (bytes "2")) ∷ []

run_exclusive_example :
    (run (Observation.held (lock_of (bytes "1"))) attempts ≡ Observation.held (lock_of (bytes "1")))
    ⊎ Within (Event.release (owner_of (bytes "1"))) attempts
run_exclusive_example =
    run_exclusive attempts (lock_of (bytes "1")) (owner_of (bytes "1")) first_owner

absent-IsConsistent : IsConsistent Observation.absent
unfolding IsConsistent
absent-IsConsistent l e = cc

run-IsConsistent_example :
    IsConsistent (run Observation.absent (Event.acquire (lock_of (bytes "1")) ∷ attempts))
run-IsConsistent_example =
    run-IsConsistent (Event.acquire (lock_of (bytes "1")) ∷ attempts) Observation.absent
      absent-IsConsistent

no_release : ¬ Within (Event.release (owner_of (bytes "1"))) attempts
no_release (inl e) = cc
no_release (inr (inl e)) =
    let same : owner_of (bytes "2") ≡ owner_of (bytes "1") = cc in
    let id_of : Ownership → ℕ = λ o. get_or o.execution_id 0 0 in
    let ids = ap id_of same in omega (arith, ids)
no_release (inr (inr w)) = absurd w

run-acquire_release_example :
    (run Observation.absent (
        Event.acquire (lock_of (bytes "1")) ∷ attempts ++ Event.release (owner_of (bytes "1")) ∷ [])
      ≡ Observation.absent)
    ↔ (owner_of (bytes "1") ≡ owner_of (bytes "1"))
run-acquire_release_example =
    run-acquire_release (lock_of (bytes "1")) (owner_of (bytes "1")) attempts (owner_of (bytes "1"))
      first_owner no_release
