-- ===== src/Examples/Reservoir.antt =====
-- A package whose registry entry changes.
use leanbun.Base.{ℕ, [], ◌∷◌, some, none, ◌≡◌, ◌≢◌, refl, ok, bytes, replicate}
use leanbun.Lock.Model.{Sha256}
use leanbun.Reservoir.Binding.{Binding, bind, binding_identity}
use leanbun.Reservoir.Policy.{Outcome, authorization_for, authorize, evaluate}
use leanbun.Reservoir.Authorized.{SameScope, evaluate-authorize, authorize-replay}
use leanbun.Core.Sha256.{absorb_blocks, compress}
use leanbun.Reservoir.Drift.{IsBound, SameContent, evaluate-drift}

abbrev binding : ℕ → ℕ → Sha256 → Binding
binding commit metadata identity = record {
  registry = replicate 32 1;
  key = record { scope = bytes "s"; name = bytes "n" };
  requested_version = bytes "1.0";
  metadata_sha256 = replicate 32 metadata;
  resolved_url = bytes "https://h/r";
  exact_commit = replicate 40 commit;
  download_integrity = replicate 32 2;
  source_tree_sha256 = replicate 32 3;
  selected_source_identity = replicate 32 4;
  identity = identity;
}

abbrev in_force : Binding
in_force = binding b'a' 5 (replicate 32 6)

abbrev moved : Binding
moved = binding b'b' 7 (replicate 32 8)

moved_authorized : authorize in_force moved ≡ ok (authorization_for in_force moved)
unfolding authorize
moved_authorized = refl

moved_accepted :
    evaluate (some in_force) (moved ∷ []) (some (authorization_for in_force moved))
    ≡ ok (
        Outcome.explicit_rebind_accepted (authorization_for in_force moved).identity moved.identity)
unfolding evaluate
moved_accepted = refl

evaluate-authorize_example :
    evaluate (some in_force) (moved ∷ []) (some (authorization_for in_force moved))
    ≡ ok (
        Outcome.explicit_rebind_accepted (authorization_for in_force moved).identity moved.identity)
evaluate-authorize_example =
    evaluate-authorize in_force moved (authorization_for in_force moved) moved_authorized (λ e. cc)

authorize-replay_example :
    (b : Binding) × (q : Binding) × (some in_force ≡ some b)
    × (moved ∷ [] ≡ q ∷ [])
    × (Outcome.explicit_rebind_accepted (authorization_for in_force moved).identity moved.identity
        ≡ Outcome.explicit_rebind_accepted
            (authorization_for in_force moved).identity
            moved.identity)
    × (b.identity ≡ in_force.identity)
    × (q.identity ≡ moved.identity)
    × (b.exact_commit ≡ in_force.exact_commit)
    × (q.exact_commit ≡ moved.exact_commit)
    × (q.metadata_sha256 ≡ moved.metadata_sha256)
    × SameScope b in_force
    × SameScope q moved
    × (b.exact_commit ≢ q.exact_commit)
authorize-replay_example =
    authorize-replay in_force moved (authorization_for in_force moved) (some in_force) (moved ∷ [])
      (Outcome.explicit_rebind_accepted (authorization_for in_force moved).identity moved.identity)
      moved_authorized moved_accepted

-- a binding whose identity is computed
abbrev computed : ℕ → Binding
computed metadata =
    let b = binding b'a' metadata [] in
    record b {
      identity =
          binding_identity b.registry b.key b.requested_version b.metadata_sha256 b.resolved_url
            b.exact_commit b.download_integrity b.source_tree_sha256 b.selected_source_identity;
    }

computed-IsBound_5 : IsBound (computed 5)
unfolding IsBound bind
computed-IsBound_5 = refl

computed-IsBound_9 : IsBound (computed 9)
unfolding IsBound bind
computed-IsBound_9 = refl

metadata_drifted :
    evaluate (some (computed 5)) (computed 9 ∷ []) none
    ≡ ok (Outcome.metadata_drift (computed 5).identity (replicate 32 9))
unfolding evaluate binding_identity absorb_blocks compress
metadata_drifted = refl

evaluate-drift_example :
    SameContent (computed 5) (computed 9)
    × ((computed 5).metadata_sha256 ≢ (computed 9).metadata_sha256)
    × ((computed 5).identity ≡ (computed 5).identity)
    × (replicate 32 9 ≡ (computed 9).metadata_sha256)
evaluate-drift_example =
    evaluate-drift (computed 5) (computed 9) (computed 5).identity (replicate 32 9)
      computed-IsBound_5 computed-IsBound_9 metadata_drifted
