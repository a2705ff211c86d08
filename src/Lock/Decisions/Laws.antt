-- ===== src/Lock/Decisions/Laws.antt =====
-- What holds of the decisions that are accepted for a lock.
use leanbun.Base.{
  Bool, true, false, not, ◌||◌, List, [], ◌∷◌, map, ◌≡◌, sym, ok, ◌>>◌, >>=-eq-ok, reject_if,
  reject_if-eq-ok, ◌==◌, ==_iff, bytes_equal, has_repeat, arith, subst,
}
use leanbun.Base.Ascending.{IsSorted, Ascends-of_sorted, sort_by-IsSorted}
use leanbun.Base.Membership.{has_difference, has_difference-Within, Ascends-map, Ascends-same}
use leanbun.Lock.Model
use leanbun.Lock.Model.{PackageKey, key_equal, key_ord, LockedPackage, LockErrorKind}
use leanbun.Lock.Fields.{Made}
use leanbun.Lock.Provenance.{PathDecision}
use leanbun.Lock.Decisions.{DecisionSet, sort_decisions, disagrees, make_decision_set}
use leanbun.Lock.Build.Laws.{IsSoundLock}

-- the decision is for the package, with its selected identity and its source tree
pub record Decides (p : LockedPackage) (d : PathDecision) : Type 0 where
  pub key : d.package_key ≡ p.key
  pub identity : d.selected_source_identity ≡ p.selected_source_identity
  pub tree : d.source_tree_sha256 ≡ p.source_tree_sha256

-- each package has the decision at its own place, and there are no others
unfoldable pub DecidesEach : List LockedPackage → List PathDecision → Type 0
DecidesEach [] [] = Unit
DecidesEach (p ∷ ps) (d ∷ ds) = Decides p d × DecidesEach ps ds
DecidesEach _ _ = ⊥

agree_each :
    (ps : List LockedPackage) (ds : List PathDecision)
    → map (λ (p : LockedPackage). p.key) ps ≡ map (λ (d : PathDecision). d.package_key) ds
    → disagrees ps ds ≡ false
    → DecidesEach ps ds
unfolding DecidesEach disagrees
agree_each [] [] e h = tt
agree_each [] (d ∷ ds) e h = cc
agree_each (p ∷ ps) [] e h = cc
agree_each (p ∷ ps) (d ∷ ds) e h =
    let (same_id, same_tree, rest) =
      agreed (p.selected_source_identity == d.selected_source_identity)
        (p.source_tree_sha256 == d.source_tree_sha256) (disagrees ps ds) h in
    (
      record {
        key = cc;
        identity = sym ((==_iff p.selected_source_identity d.selected_source_identity).0 same_id);
        tree = sym ((==_iff p.source_tree_sha256 d.source_tree_sha256).0 same_tree);
      },
      agree_each ps ds (cc) rest,
    )
  where
    agreed : (p q r : Bool) → (not p || not q || r) ≡ false → (p ≡ true) × (q ≡ true) × (r ≡ false)
    agreed p q r t = (ground arith, ground arith, ground arith)

sort_decisions-IsSorted :
    (ds : List PathDecision) → IsSorted (λ (d : PathDecision). d.package_key) (sort_decisions ds)
unfolding sort_decisions
sort_decisions-IsSorted ds = sort_by-IsSorted (λ (d : PathDecision). d.package_key) ds

-- For a sound lock, the decisions that are accepted are one for each package of the lock, in the lock's
-- order, each with the package's key, selected source identity and source tree digest.
pub make_decision_set-DecidesEach :
    (lock : Model.Lock) (decisions : List PathDecision) (made : DecisionSet)
    → IsSoundLock lock
    → make_decision_set lock decisions ≡ ok made
    → DecidesEach lock.packages made.decisions
unfolding make_decision_set
make_decision_set-DecidesEach lock decisions made sound h =
    let sorted = sort_decisions decisions in
    let decided = map (λ (d : PathDecision). d.package_key) sorted in
    let locked = map (λ (p : LockedPackage). p.key) lock.packages in
    let (u4, t4, is) =
      >>=-eq-ok
        (reject_if (has_repeat decided) LockErrorKind.duplicate_decision
          >> reject_if (has_difference locked decided) LockErrorKind.missing_decision
          >> reject_if (has_difference decided locked) LockErrorKind.extra_package
          >> reject_if (disagrees lock.packages sorted) LockErrorKind.incompatible_provenance)
        _ h in
    let (u3, t3, agree) =
      >>=-eq-ok
        (reject_if (has_repeat decided) LockErrorKind.duplicate_decision
          >> reject_if (has_difference locked decided) LockErrorKind.missing_decision
          >> reject_if (has_difference decided locked) LockErrorKind.extra_package)
        (λ _. reject_if (disagrees lock.packages sorted) LockErrorKind.incompatible_provenance)
        t4 in
    let (u2, t2, extra) =
      >>=-eq-ok
        (reject_if (has_repeat decided) LockErrorKind.duplicate_decision
          >> reject_if (has_difference locked decided) LockErrorKind.missing_decision)
        (λ _. reject_if (has_difference decided locked) LockErrorKind.extra_package) t3 in
    let (u1, repeated, missing) =
      >>=-eq-ok (reject_if (has_repeat decided) LockErrorKind.duplicate_decision)
        (λ _. reject_if (has_difference locked decided) LockErrorKind.missing_decision) t2 in
    let ascends =
      Ascends-of_sorted (λ (d : PathDecision). d.package_key) sorted
        (sort_decisions-IsSorted decisions) (reject_if-eq-ok _ _ repeated) in
    let same =
      Ascends-same locked decided
        (Ascends-map (λ (p : LockedPackage). p.key) lock.packages sound.ascends)
        (Ascends-map (λ (d : PathDecision). d.package_key) sorted ascends)
        (has_difference-Within locked decided (reject_if-eq-ok _ _ missing))
        (has_difference-Within decided locked (reject_if-eq-ok _ _ extra)) in
    subst (λ (m : DecisionSet). DecidesEach lock.packages m.decisions) (made_is _ made is)
      (agree_each lock.packages sorted same (reject_if-eq-ok _ _ agree))
  where
    made_is : (a b : DecisionSet) → ◌≡◌ {A = Made DecisionSet} (ok a) (ok b) → a ≡ b
    made_is a b e = cc
