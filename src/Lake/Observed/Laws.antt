-- ===== src/Lake/Observed/Laws.antt =====
-- What holds of the paths that are accepted for a set of decisions.
use leanbun.Base.{
  Bool, true, false, not, ◌||◌, List, [], ◌∷◌, map, ◌≡◌, refl, subst, ok, ◌>>◌, >>=-eq-ok,
  reject_if, reject_if-eq-ok, ◌==◌, ==_iff, bytes_equal, has_repeat, arith,
}
use leanbun.Base.Ascending.{Ascends, Ascends-of_sorted, sort_by-IsSorted}
use leanbun.Base.Membership.{has_difference, has_difference-Within, Ascends-map, Ascends-same}
use leanbun.Lock.Model.{Text, PackageKey, key_equal, key_ord}
use leanbun.Lock.Provenance.{PathDecision}
use leanbun.Lock.Decisions.{DecisionSet}
use leanbun.Lake.Model.{LakeErrorKind}
use leanbun.Lake.Declaration.{Bridged}
use leanbun.Lake.Observed.{ObservedPath, PathObservation, sort_paths, has_mismatch, compare_paths}

-- the keys with the paths that are observed, and with those that are decided
abbrev pub placed : List ObservedPath → List (PackageKey × Text)
placed os = map (λ (o : ObservedPath). (o.key, o.path)) os

abbrev pub decided_places : List PathDecision → List (PackageKey × Text)
decided_places ds = map (λ (d : PathDecision). (d.package_key, d.final_path)) ds

-- without a mismatch, lists of the same keys have the same paths
same_paths :
    (ds : List PathDecision) (os : List ObservedPath)
    → map (λ (d : PathDecision). d.package_key) ds ≡ map (λ (o : ObservedPath). o.key) os
    → has_mismatch ds os ≡ false
    → placed os ≡ decided_places ds
unfolding has_mismatch
same_paths [] [] e h = refl
same_paths [] (o ∷ os) e h = cc
same_paths (d ∷ ds) [] e h = cc
same_paths (d ∷ ds) (o ∷ os) e h =
    let (key, path, rest) =
      agreed (d.package_key == o.key) (d.final_path == o.path) (has_mismatch ds os) h in
    let same_key : d.package_key ≡ o.key = (==_iff d.package_key o.key).0 key in
    let same_path : d.final_path ≡ o.path = (==_iff d.final_path o.path).0 path in
    let others = same_paths ds os (cc) rest in cc
  where
    agreed : (p q r : Bool) → (not p || not q || r) ≡ false → (p ≡ true) × (q ≡ true) × (r ≡ false)
    agreed p q r t = (ground arith, ground arith, ground arith)

-- For a set of decisions with strictly ascending keys, the paths that are accepted are, in the order of
-- the decisions, their keys with their final paths.
pub compare_paths-eq_ok :
    (decided : DecisionSet) (paths : List ObservedPath) (o : PathObservation)
    → Ascends (λ (d : PathDecision). d.package_key) decided.decisions
    → compare_paths decided paths ≡ ok o
    → placed o.paths ≡ decided_places decided.decisions
unfolding compare_paths sort_paths
compare_paths-eq_ok decided paths o ascends h =
    let sorted = sort_paths paths in
    let observed = map (λ (p : ObservedPath). p.key) sorted in
    let expected = map (λ (d : PathDecision). d.package_key) decided.decisions in
    let repeats = reject_if (has_repeat observed) LakeErrorKind.duplicate_observed_path in
    let missing =
      reject_if (has_difference expected observed) LakeErrorKind.missing_observed_path in
    let extra = reject_if (has_difference observed expected) LakeErrorKind.extra_observed_path in
    let mismatch =
      reject_if (has_mismatch decided.decisions sorted) LakeErrorKind.workspace_path_mismatch in
    let (u4, t4, is) = >>=-eq-ok (repeats >> missing >> extra >> mismatch) _ h in
    let (u3, t3, agree) = >>=-eq-ok (repeats >> missing >> extra) (λ _. mismatch) t4 in
    let (u2, t2, none_extra) = >>=-eq-ok (repeats >> missing) (λ _. extra) t3 in
    let (u1, distinct, none_missing) = >>=-eq-ok repeats (λ _. missing) t2 in
    let paths_ascend =
      Ascends-of_sorted (λ (p : ObservedPath). p.key) sorted
        (sort_by-IsSorted (λ (p : ObservedPath). p.key) paths) (reject_if-eq-ok _ _ distinct) in
    let same =
      Ascends-same expected observed
        (Ascends-map (λ (d : PathDecision). d.package_key) decided.decisions ascends)
        (Ascends-map (λ (p : ObservedPath). p.key) sorted paths_ascend)
        (has_difference-Within expected observed (reject_if-eq-ok _ _ none_missing))
        (has_difference-Within observed expected (reject_if-eq-ok _ _ none_extra)) in
    let sorted_is : sorted ≡ o.paths = paths_are _ o is in
    subst (λ ps. placed ps ≡ decided_places decided.decisions) sorted_is
      (same_paths decided.decisions sorted same (reject_if-eq-ok _ _ agree))
  where
    paths_are :
        (a b : PathObservation)
        → ◌≡◌ {A = Bridged PathObservation} (ok a) (ok b)
        → a.paths ≡ b.paths
    paths_are a b e = cc
