-- ===== src/State/Exclusion.antt =====
-- The decisions of State.BuildLock, carried out one after another by executions that share a store.
use leanbun.Base.{
  List, [], ◌∷◌, ◌++◌, ◌↔◌, ◌≡◌, refl, sym, ap, ◌∙◌, ◌⊎◌, inl, inr, Result, ok, err, arith, ==_iff,
  Within, subst,
}
use leanbun.State.BuildLock.{
  ExecutionLock, Ownership, ownership_equal, Observation, AcquireDecision, ReleaseDecision,
  TransitionError, from_lock, from_observed, decide_acquire, release_observed, decide_release,
}

pub data Event : Type 0 where
  acquire : (requested : ExecutionLock) → Event
  release : (expected : Ownership) → Event

-- a new lock is published where the decision says so, and a lock is removed where it says so
unfoldable pub carry_out : Observation → Event → Observation
unfolding decide_acquire decide_release
carry_out o (acquire requested) = elim (decide_acquire o requested) [
  | ok (AcquireDecision.publish_new document _) ↦ Observation.held document
  | _ ↦ o
]
carry_out o (release expected) = elim (decide_release o expected) [
  | ok (ReleaseDecision.remove_owned _ _) ↦ Observation.absent
  | _ ↦ o
]

unfoldable pub run : Observation → List Event → Observation
unfolding carry_out
run o [] = o
run o (e ∷ events) = run (carry_out o e) events

-- the lock that is observed has a key that agrees with its identities
unfoldable pub IsConsistent : Observation → Type 0
IsConsistent o =
    (l : ExecutionLock) → o ≡ Observation.held l → (w : Ownership) × (from_lock l ≡ ok w)

from_observed_lem :
    (l : ExecutionLock) (w : Ownership) → from_observed l ≡ ok w → from_lock l ≡ ok w
unfolding from_observed
from_observed_lem l w h = ground arith

carry_out-acquire :
    (o : Observation) (requested : ExecutionLock)
    → (carry_out o (Event.acquire requested) ≡ o)
      ⊎ ((o ≡ Observation.absent)
          × (carry_out o (Event.acquire requested) ≡ Observation.held requested)
          × ((w : Ownership) × (from_lock requested ≡ ok w)))
unfolding carry_out decide_acquire
carry_out-acquire o requested = by_request (from_lock requested) refl o
  where
    by_request :
        (r : Result TransitionError Ownership)
        → from_lock requested ≡ r
        → (o : Observation)
        → (carry_out o (Event.acquire requested) ≡ o)
          ⊎ ((o ≡ Observation.absent)
              × (carry_out o (Event.acquire requested) ≡ Observation.held requested)
              × ((w : Ownership) × (from_lock requested ≡ ok w)))
    by_request (err e) h Observation.absent = inl (ground arith)
    by_request (err e) h (Observation.held l) = inl (ground arith)
    by_request (ok w) h Observation.absent = inr (refl, ground arith, (w, h))
    by_request (ok w) h (Observation.held l) = inl (ground arith)

carry_out-release :
    (l : ExecutionLock) (expected : Ownership)
    → (carry_out (Observation.held l) (Event.release expected) ≡ Observation.held l)
      ⊎ ((carry_out (Observation.held l) (Event.release expected) ≡ Observation.absent)
          × (from_lock l ≡ ok expected))
unfolding carry_out decide_release release_observed
carry_out-release l expected = by_observed (from_observed l) refl
  where
    by_observed :
        (r : Result TransitionError Ownership)
        → from_observed l ≡ r
        → (carry_out (Observation.held l) (Event.release expected) ≡ Observation.held l)
          ⊎ ((carry_out (Observation.held l) (Event.release expected) ≡ Observation.absent)
              × (from_lock l ≡ ok expected))
    by_observed (err e) h = inl (ground arith)
    by_observed (ok w) h = elim (ownership_equal.discrete w expected) [
      | yes same ↦ inr (ground arith, from_observed_lem l w h ∙ ap ok same)
      | no differs ↦ inl (ground arith)
    ]

held_injective : (a b : ExecutionLock) → Observation.held a ≡ Observation.held b → a ≡ b
held_injective a b e = cc

release_absent :
    (expected : Ownership)
    → carry_out Observation.absent (Event.release expected) ≡ Observation.absent
unfolding carry_out decide_release
release_absent expected = refl

carry_out-IsConsistent :
    (o : Observation) (e : Event) → IsConsistent o → IsConsistent (carry_out o e)
unfolding IsConsistent
carry_out-IsConsistent o (Event.acquire requested) h = elim (carry_out-acquire o requested) [
  | inl same ↦ subst IsConsistent (sym same) h
  | inr (free, published, (w, owned)) ↦
      subst IsConsistent (sym published) (λ l e. (w, cc (owned, held_injective requested l e)))
]
carry_out-IsConsistent Observation.absent (Event.release expected) h =
    λ l e. absurd (stays_absent l e)
  where
    stays_absent :
        (l : ExecutionLock)
        → carry_out Observation.absent (Event.release expected) ≡ Observation.held l
        → ⊥
    stays_absent l e = cc (e, release_absent expected)
carry_out-IsConsistent (Observation.held l) (Event.release expected) h =
    elim (carry_out-release l expected) [
      | inl same ↦ subst IsConsistent (sym same) h
      | inr (removed, owned) ↦ subst IsConsistent (sym removed) (λ k e. cc)
    ]

-- Whatever the executions attempt, the lock that is observed has a key that agrees with its project
-- and its image, if that held at the start.
pub run-IsConsistent :
    (events : List Event) (o : Observation) → IsConsistent o → IsConsistent (run o events)
unfolding run
run-IsConsistent [] o h = h
run-IsConsistent (e ∷ events) o h =
    run-IsConsistent events (carry_out o e) (carry_out-IsConsistent o e h)

-- A lock whose key agrees with its identities stays as it is through any sequence of attempts, or the
-- sequence holds a release by its owner.
pub run_exclusive :
    (events : List Event) (l : ExecutionLock) (w : Ownership)
    → from_lock l ≡ ok w
    → (run (Observation.held l) events ≡ Observation.held l) ⊎ Within (Event.release w) events
unfolding run
run_exclusive [] l w h = inl refl
run_exclusive (Event.acquire requested ∷ events) l w h =
    elim (carry_out-acquire (Observation.held l) requested) [
      | inl same ↦ elim (run_exclusive events l w h) [
        | inl stays ↦ inl (ap (λ o. run o events) same ∙ stays)
        | inr later ↦ inr (inr later)
      ]
      | inr (free, published, owned) ↦ cc
    ]
run_exclusive (Event.release expected ∷ events) l w h = elim (carry_out-release l expected) [
  | inl same ↦ elim (run_exclusive events l w h) [
    | inl stays ↦ inl (ap (λ o. run o events) same ∙ stays)
    | inr later ↦ inr (inr later)
  ]
  | inr (removed, owned) ↦ inr (inl (ap Event.release (cc (h, owned))))
]

run-append : (es fs : List Event) (o : Observation) → run o (es ++ fs) ≡ run (run o es) fs
unfolding run
run-append [] fs o = refl
run-append (e ∷ es) fs o = run-append es fs (carry_out o e)

published :
    (l : ExecutionLock) (w : Ownership)
    → from_lock l ≡ ok w
    → carry_out Observation.absent (Event.acquire l) ≡ Observation.held l
unfolding carry_out decide_acquire
published l w h = ground arith

released :
    (l : ExecutionLock) (w : Ownership)
    → from_lock l ≡ ok w
    → carry_out (Observation.held l) (Event.release w) ≡ Observation.absent
unfolding carry_out decide_release from_observed release_observed
released l w h = ground (arith, (==_iff w w).1 refl)

-- When no lock is held and a lock whose key agrees with its identities is acquired, then after any
-- attempts without a release by its owner, the next release ends with no lock held exactly when it is
-- its owner's.
pub run-acquire_release :
    (l : ExecutionLock) (w : Ownership) (events : List Event) (expected : Ownership)
    → from_lock l ≡ ok w
    → ¬ Within (Event.release w) events
    → (run Observation.absent (Event.acquire l ∷ events ++ Event.release expected ∷ [])
        ≡ Observation.absent)
      ↔ (expected ≡ w)
unfolding run
run-acquire_release l w events expected h kept = (
  λ gone. owner (carry_out-release l expected) (sym ended ∙ gone),
  λ same. ended ∙ ap (λ x. carry_out (Observation.held l) (Event.release x)) same ∙ released l w h,
)
  where
    stays : run (Observation.held l) events ≡ Observation.held l
    stays = elim (run_exclusive events l w h) [ inl same ↦ same | inr found ↦ absurd (kept found) ]

    ended :
        run Observation.absent (Event.acquire l ∷ events ++ Event.release expected ∷ [])
        ≡ carry_out (Observation.held l) (Event.release expected)
    ended =
        ap (λ o. run o (events ++ Event.release expected ∷ [])) (published l w h)
        ∙ run-append events (Event.release expected ∷ []) (Observation.held l)
        ∙ ap (λ o. carry_out o (Event.release expected)) stays

    owner :
        ((carry_out (Observation.held l) (Event.release expected) ≡ Observation.held l)
          ⊎ ((carry_out (Observation.held l) (Event.release expected) ≡ Observation.absent)
              × (from_lock l ≡ ok expected)))
        → carry_out (Observation.held l) (Event.release expected) ≡ Observation.absent
        → expected ≡ w
    owner (inl same) gone = cc
    owner (inr (removed, owned)) gone = cc
