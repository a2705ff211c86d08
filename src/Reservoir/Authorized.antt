-- ===== src/Reservoir/Authorized.antt =====
-- What an authorisation to rebind allows, and what the outcomes say of the two bindings.
use leanbun.Base.{
  true, List, [], ◌∷◌, Option, none, some, ◌≡◌, ◌≢◌, refl, sym, ap, ◌∙◌, ok, >>=-eq-ok,
  reject_if-eq-ok, ◌>>◌, reject_if, arith, ==_iff, ◌==◌, bytes_equal,
}
use leanbun.Lock.Model.{key_equal}
use leanbun.Reservoir.Binding.{Binding}
use leanbun.Reservoir.Policy.{
  PolicyErrorKind, Authorization, Outcome, require_same_scope, authorize, authorization_for,
  matches, changed_outcome, single_outcome, active_outcome, require_all_same_scope, evaluate,
}

pub record SameScope (a b : Binding) : Type 0 where
  pub registry : a.registry ≡ b.registry
  pub key : a.key ≡ b.key
  pub version : a.requested_version ≡ b.requested_version

pub require_same_scope-ok :
    (a b : Binding) (u : Unit {0}) → require_same_scope a b ≡ ok u → SameScope a b
unfolding require_same_scope
require_same_scope-ok a b u h = record {
  registry = ground arith;
  key = ground arith;
  version = ground arith;
}

SameScope-ok : (a b : Binding) → SameScope a b → require_same_scope a b ≡ ok tt
unfolding require_same_scope
SameScope-ok a b s = ground (arith, s.registry, s.key, s.version)

pub record IsFor (auth : Authorization) (a p : Binding) : Type 0 where
  pub registry : auth.registry ≡ a.registry
  pub key : auth.key ≡ a.key
  pub version : auth.requested_version ≡ a.requested_version
  pub old : auth.old_commit ≡ a.exact_commit
  pub new : auth.new_commit ≡ p.exact_commit
  pub metadata : auth.observed_metadata_sha256 ≡ p.metadata_sha256
  pub active : auth.active_binding_identity ≡ a.identity
  pub proposed : auth.proposed_binding_identity ≡ p.identity

-- the authorisation names what it is for, and is for a change of commit within one scope
authorize_lem :
    (a p : Binding) (auth : Authorization)
    → authorize a p ≡ ok auth
    → IsFor auth a p × SameScope a p × (a.exact_commit ≢ p.exact_commit)
unfolding authorize
authorize_lem a p auth h =
    let (u, tested, made) =
      >>=-eq-ok
        (require_same_scope a p
          >> reject_if (a.exact_commit == p.exact_commit) PolicyErrorKind.invalid_authorization)
        (λ _. ok (authorization_for a p)) h in
    let (v, scope, distinct) =
      >>=-eq-ok (require_same_scope a p)
        (λ _. reject_if (a.exact_commit == p.exact_commit) PolicyErrorKind.invalid_authorization)
        tested in
    let same : auth ≡ authorization_for a p = cc in
    (
      record {
        registry = ap (λ (x : Authorization). x.registry) same;
        key = ap (λ (x : Authorization). x.key) same;
        version = ap (λ (x : Authorization). x.requested_version) same;
        old = ap (λ (x : Authorization). x.old_commit) same;
        new = ap (λ (x : Authorization). x.new_commit) same;
        metadata = ap (λ (x : Authorization). x.observed_metadata_sha256) same;
        active = ap (λ (x : Authorization). x.active_binding_identity) same;
        proposed = ap (λ (x : Authorization). x.proposed_binding_identity) same;
      },
      require_same_scope-ok a p v scope,
      changed_commit distinct,
    )
  where
    changed_commit :
        {w : Unit {0}}
        → reject_if (a.exact_commit == p.exact_commit) PolicyErrorKind.invalid_authorization ≡ ok w
        → a.exact_commit ≢ p.exact_commit
    changed_commit x e = cc (
      reject_if-eq-ok (a.exact_commit == p.exact_commit) PolicyErrorKind.invalid_authorization x,
      (==_iff a.exact_commit p.exact_commit).1 e,
    )

matches_iff :
    (auth : Authorization) (a p : Binding)
    → matches auth a p ≡ true
    → IsFor auth a p × SameScope a p
unfolding matches
matches_iff auth a p h =
    let at_active : auth.key ≡ a.key = (==_iff auth.key a.key).0 (ground arith) in
    let at_proposed : auth.key ≡ p.key = (==_iff auth.key p.key).0 (ground arith) in
    (
      record {
        registry = ground arith;
        key = at_active;
        version = ground arith;
        old = ground arith;
        new = ground arith;
        metadata = ground arith;
        active = ground arith;
        proposed = ground arith;
      },
      record { registry = ground arith; key = sym at_active ∙ at_proposed; version = ground arith },
    )

IsFor-matches :
    (auth : Authorization) (a p : Binding)
    → IsFor auth a p
    → SameScope a p
    → matches auth a p ≡ true
unfolding matches
IsFor-matches auth a p f s = ground (
  arith, f.registry, f.key, f.version, f.old, f.new, f.metadata, f.active, f.proposed, s.registry,
  s.key, s.version,
)

-- with an authorisation there is one way to succeed
evaluate-authorized :
    (active : Option Binding) (observations : List Binding) (auth : Authorization) (o : Outcome)
    → evaluate active observations (some auth) ≡ ok o
    → (a : Binding) × (p : Binding) × (active ≡ some a)
      × (observations ≡ p ∷ [])
      × (p.identity ≢ a.identity)
      × (matches auth a p ≡ true)
      × (o ≡ Outcome.explicit_rebind_accepted auth.identity p.identity)
unfolding evaluate active_outcome single_outcome changed_outcome
evaluate-authorized none [] auth o h = ground arith
evaluate-authorized none (p ∷ ps) auth o h = ground arith
evaluate-authorized (some a) [] auth o h = ground arith
evaluate-authorized (some a) (p ∷ []) auth o h =
    (a, p, refl, refl, ground arith, ground arith, ground arith)
evaluate-authorized (some a) (p ∷ q ∷ ps) auth o h = ground arith

module _ (a p : Binding) (auth : Authorization) where
  -- An authorisation made for two bindings of different identities is accepted when these are the
  -- binding in force and the only observation.
  pub evaluate-authorize :
      authorize a p ≡ ok auth
      → p.identity ≢ a.identity
      → evaluate (some a) (p ∷ []) (some auth)
        ≡ ok (Outcome.explicit_rebind_accepted auth.identity p.identity)
  unfolding evaluate require_all_same_scope active_outcome single_outcome changed_outcome
  evaluate-authorize h differs =
      let (for_pair, scope, changed) = authorize_lem a p auth h in
      ground (arith, SameScope-ok a p scope, IsFor-matches auth a p for_pair scope)

  -- An authorisation made for one pair of bindings is accepted only for a binding in force and a
  -- single observation with the identities, the commits and the scope of that pair, and with the
  -- metadata that were observed; no other outcome succeeds with it.
  pub authorize-replay :
      (active : Option Binding) (observations : List Binding) (o : Outcome)
      → authorize a p ≡ ok auth
      → evaluate active observations (some auth) ≡ ok o
      → (b : Binding) × (q : Binding) × (active ≡ some b)
        × (observations ≡ q ∷ [])
        × (o ≡ Outcome.explicit_rebind_accepted auth.identity p.identity)
        × (b.identity ≡ a.identity)
        × (q.identity ≡ p.identity)
        × (b.exact_commit ≡ a.exact_commit)
        × (q.exact_commit ≡ p.exact_commit)
        × (q.metadata_sha256 ≡ p.metadata_sha256)
        × SameScope b a
        × SameScope q p
        × (b.exact_commit ≢ q.exact_commit)
  authorize-replay active observations o h accepted =
      let (f, scope, changed) = authorize_lem a p auth h in
      let (b, q, is_active, is_single, differs, matching, outcome) =
        evaluate-authorized active observations auth o accepted in
      let (g, same) = matches_iff auth b q matching in
      let key : b.key ≡ a.key = sym g.key ∙ f.key in
      (
        b,
        q,
        is_active,
        is_single,
        outcome ∙ ap (Outcome.explicit_rebind_accepted auth.identity) (sym g.proposed ∙ f.proposed),
        sym g.active ∙ f.active,
        sym g.proposed ∙ f.proposed,
        sym g.old ∙ f.old,
        sym g.new ∙ f.new,
        sym g.metadata ∙ f.metadata,
        record {
          registry = sym g.registry ∙ f.registry;
          key = key;
          version = sym g.version ∙ f.version;
        },
        record {
          registry = sym same.registry ∙ sym g.registry ∙ f.registry ∙ scope.registry;
          key = sym same.key ∙ key ∙ scope.key;
          version = sym same.version ∙ sym g.version ∙ f.version ∙ scope.version;
        },
        λ e. changed (sym f.old ∙ g.old ∙ e ∙ sym g.new ∙ f.new),
      )
