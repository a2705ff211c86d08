-- ===== src/Lock/Decisions.antt =====
-- PackagePathDecisionSetV1 of rust/crates/leanbun-lock/src/lock_v1.rs.
pub mod Laws
use leanbun.Base.{
  Bool, false, not, ◌||◌, List, [], ◌∷◌, ◌++◌, map, ok, ◌>>◌, reject_if, ◌==◌, bytes_equal, bytes,
  sort_by, has_repeat,
}
use leanbun.Base.Ascending.{by_key}
use leanbun.Base.Membership.{has_difference}
use leanbun.Core.Sha256.{Hasher, new, update, finalize}
use leanbun.Lock.Model
use leanbun.Lock.Model.{Sha256, key_equal, key_ord, compare_keys, LockedPackage, LockErrorKind}
use leanbun.Lock.Fields.{Made}
use leanbun.Lock.Provenance.{PathDecision}

-- PackagePathDecisionSetV1
pub record DecisionSet : Type 0 where
  pub decisions : List PathDecision
  pub digest : Sha256

unfoldable pub sort_decisions : List PathDecision → List PathDecision
unfolding sort_by key_ord
sort_decisions decisions = sort_by (by_key (λ d. d.package_key)) decisions

-- the loop over `zip`: the first pair that does not agree
unfoldable pub disagrees : List LockedPackage → List PathDecision → Bool
unfolding bytes_equal
disagrees (p ∷ ps) (d ∷ ds) =
    not (p.selected_source_identity == d.selected_source_identity)
    || not (p.source_tree_sha256 == d.source_tree_sha256)
    || disagrees ps ds
disagrees _ _ = false

unfoldable pub hash_each_decision : List PathDecision → Hasher → Hasher
unfolding update
hash_each_decision [] hasher = hasher
hash_each_decision (d ∷ ds) hasher = hash_each_decision ds (update hasher d.decision_sha256)

unfoldable pub hash_decisions : List PathDecision → Sha256
unfolding new update finalize hash_each_decision
hash_decisions decisions =
    finalize
      (hash_each_decision decisions (update new (bytes "leanbun-path-decision-set-v1" ++ 0 ∷ [])))

-- PackagePathDecisionSetV1::new
unfoldable pub make_decision_set : Model.Lock → List PathDecision → Made DecisionSet
unfolding sort_decisions has_repeat key_equal disagrees hash_decisions
make_decision_set lock decisions =
    let sorted = sort_decisions decisions in
    let decided = map (λ d. d.package_key) sorted in
    let locked = map (λ p. p.key) lock.packages in
    reject_if (has_repeat decided) LockErrorKind.duplicate_decision
    >> reject_if (has_difference locked decided) LockErrorKind.missing_decision
    >> reject_if (has_difference decided locked) LockErrorKind.extra_package
    >> reject_if (disagrees lock.packages sorted) LockErrorKind.incompatible_provenance
    >> ok (record { decisions = sorted; digest = hash_decisions sorted })
