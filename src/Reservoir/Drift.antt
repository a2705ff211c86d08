-- ===== src/Reservoir/Drift.antt =====
-- What the outcomes without an authorisation say of the bindings.
use leanbun.Base.{
  [], ◌∷◌, none, some, ◌≡◌, ◌≢◌, sym, ap, ok, ◌>>◌, >>=-eq-ok, arith, ==_iff, ◌==◌, bytes_equal,
  true, false,
}
use leanbun.Lock.Model.{Sha256}
use leanbun.Reservoir.Binding.{Binding, bind, binding_identity, validate_text, validate_commit}
use leanbun.Reservoir.Policy.{
  Outcome, require_same_scope, require_all_same_scope, difference, changed_outcome, single_outcome,
  active_outcome, evaluate,
}
use leanbun.Reservoir.Authorized.{SameScope, require_same_scope-ok}

-- the binding is what the constructor makes of its fields
unfoldable pub IsBound : Binding → Type 0
IsBound b =
    bind b.registry b.key b.requested_version b.metadata_sha256 b.resolved_url b.exact_commit
      b.download_integrity b.source_tree_sha256 b.selected_source_identity
    ≡ ok b

identity_of : Binding → Sha256
identity_of b =
    binding_identity b.registry b.key b.requested_version b.metadata_sha256 b.resolved_url
      b.exact_commit b.download_integrity b.source_tree_sha256 b.selected_source_identity

IsBound-identity : (b : Binding) → IsBound b → b.identity ≡ identity_of b
unfolding IsBound bind identity_of
IsBound-identity b h =
    let (u, tested, made) =
      >>=-eq-ok (validate_text b.requested_version 4096 >> validate_commit b.exact_commit)
        (λ _. ok (record b { identity = identity_of b })) h in
    let same : b ≡ record b { identity = identity_of b } = cc in
    ap (λ (x : Binding). x.identity) same

-- the two bindings state the same content
pub record SameContent (a b : Binding) : Type 0 where
  pub scope : SameScope a b
  pub commit : a.exact_commit ≡ b.exact_commit
  pub url : a.resolved_url ≡ b.resolved_url
  pub integrity : a.download_integrity ≡ b.download_integrity
  pub tree : a.source_tree_sha256 ≡ b.source_tree_sha256
  pub source : a.selected_source_identity ≡ b.selected_source_identity

drift_lem :
    (a b : Binding) (i m : Sha256)
    → evaluate (some a) (b ∷ []) none ≡ ok (Outcome.metadata_drift i m)
    → (require_same_scope a b ≡ ok tt)
      × ((b.identity == a.identity) ≡ false)
      × (difference a b ≡ Outcome.metadata_drift i m)
unfolding evaluate require_all_same_scope active_outcome single_outcome changed_outcome
drift_lem a b i m h = ground arith

difference_lem :
    (a b : Binding) (i m : Sha256)
    → difference a b ≡ Outcome.metadata_drift i m
    → ((a.exact_commit == b.exact_commit) ≡ true)
      × ((a.resolved_url == b.resolved_url) ≡ true)
      × ((a.download_integrity == b.download_integrity) ≡ true)
      × ((a.source_tree_sha256 == b.source_tree_sha256) ≡ true)
      × ((a.selected_source_identity == b.selected_source_identity) ≡ true)
      × (a.identity ≡ i)
      × (b.metadata_sha256 ≡ m)
unfolding difference
difference_lem a b i m h = ground arith

module _ (a b : Binding) (i m : Sha256) where
  -- For two bindings made by the constructor, the outcome metadata_drift says that they agree in the
  -- scope and in all content, that their metadata differ, and it carries the identity of the first
  -- and the metadata of the second.
  pub evaluate-drift :
      IsBound a
      → IsBound b
      → evaluate (some a) (b ∷ []) none ≡ ok (Outcome.metadata_drift i m)
      → SameContent a b
        × (a.metadata_sha256 ≢ b.metadata_sha256)
        × (i ≡ a.identity)
        × (m ≡ b.metadata_sha256)
  unfolding identity_of
  evaluate-drift bound_a bound_b h =
      let (in_scope, differs, outcome) = drift_lem a b i m h in
      let scope : SameScope a b = require_same_scope-ok a b tt in_scope in
      let (commit, url, integrity, tree, source, is_i, is_m) = difference_lem a b i m outcome in
      let content : SameContent a b = record {
        scope = scope;
        commit = (==_iff a.exact_commit b.exact_commit).0 commit;
        url = (==_iff a.resolved_url b.resolved_url).0 url;
        integrity = (==_iff a.download_integrity b.download_integrity).0 integrity;
        tree = (==_iff a.source_tree_sha256 b.source_tree_sha256).0 tree;
        source = (==_iff a.selected_source_identity b.selected_source_identity).0 source;
      } in
      (
        content,
        λ e. cc (
          differs,
          (==_iff b.identity a.identity).1 (sym (identities content bound_a bound_b e)),
        ),
        sym is_i,
        sym is_m,
      )
    where
      identities :
          SameContent a b
          → IsBound a
          → IsBound b
          → a.metadata_sha256 ≡ b.metadata_sha256
          → a.identity ≡ b.identity
      identities c bound_a bound_b e =
          let at_a = IsBound-identity a bound_a in
          let at_b = IsBound-identity b bound_b in
          cc (
            at_a, at_b, e, c.scope.registry, c.scope.key, c.scope.version, c.commit, c.url,
            c.integrity, c.tree, c.source,
          )
