-- ===== src/Lock/Provenance/Contained.antt =====
-- Where a decision puts a package, and from which provenance.
use leanbun.Base.{
  ℕ, Bool, true, false, not, ◌&&◌, ◌||◌, List, [], ◌∷◌, ◌++◌, append_assoc, length, drop, all, All,
  All-append_right, ltb, eqb, eqb_iff, ◌≡◌, ◌≢◌, refl, sym, ap, ◌∙◌, ◌≤◌, le_of_ltb, subst, ok,
  ◌>>◌, >>=-eq-ok, reject_if, reject_if-eq-ok, ◌==◌, bytes_equal, starts_with, starts_with-append,
  split_on, split_on-append_both, is_bad_part, IsName, names_of_not_bad, arith,
}
use leanbun.Lock.Model.{Text, Sha256, PackageKey, LockErrorKind}
use leanbun.Lock.Fields.{Made, valid_normalized_absolute_path, validate_contained_absolute_path}
use leanbun.Lock.Provenance.{
  PathProvenance, ProvenanceSet, PathDecision, matching_entries, make_decision,
}

-- the path is the root, a slash, and names that slashes join
pub record IsBelow (root path : Text) : Type 0 where
  pub inner : Text
  pub is : path ≡ root ++ b'/' ∷ inner
  pub names : All IsName (split_on b'/' inner)

slash_names :
    (path : Text)
    → valid_normalized_absolute_path path ≡ true
    → (rest : Text) × (path ≡ b'/' ∷ rest) × All IsName (split_on b'/' rest)
unfolding valid_normalized_absolute_path starts_with
slash_names [] h = cc
slash_names (c ∷ rest) h =
    let (slash, parts) =
      both (eqb c b'/') ((c ∷ rest) == (b'/' ∷ []))
        (all (λ part. not (is_bad_part part)) (split_on b'/' rest)) h in
    let same : c ≡ b'/' = (eqb_iff c b'/').0 slash in
    (rest, cc, names_of_not_bad (split_on b'/' rest) parts)
  where
    both : (p q r : Bool) → ((p && true) && (not q) && r) ≡ true → (p ≡ true) × (r ≡ true)
    both p q r t = (ground arith, ground arith)

validate_contained-IsBelow :
    (root path : Text) → validate_contained_absolute_path root path ≡ ok tt → IsBelow root path
unfolding validate_contained_absolute_path
validate_contained-IsBelow root path h =
    let (u, normal, prefixed) =
      >>=-eq-ok
        (reject_if
          (not (valid_normalized_absolute_path root) || not (valid_normalized_absolute_path path))
          LockErrorKind.invalid_field)
        _ h in
    let (of_root, of_path) =
      two_tests (valid_normalized_absolute_path root) (valid_normalized_absolute_path path)
        (reject_if-eq-ok _ _ normal) in
    let inside =
      prefix_test (path == root) (starts_with (root ++ b'/' ∷ []) path)
        (reject_if-eq-ok _ _ prefixed) in
    let (r, root_is, root_names) = slash_names root of_root in
    let (p, path_is, path_names) = slash_names path of_path in
    let inner = drop (length (root ++ b'/' ∷ [])) path in
    let is : path ≡ root ++ b'/' ∷ inner =
      sym (starts_with-append (root ++ b'/' ∷ []) path inside)
      ∙ append_assoc root (b'/' ∷ []) inner in
    let tails : p ≡ r ++ b'/' ∷ inner =
      same_tail p (r ++ b'/' ∷ inner) (sym path_is ∙ is ∙ ap (λ t. t ++ b'/' ∷ inner) root_is) in
    record {
      inner = inner;
      is = is;
      names = All-append_right IsName (split_on b'/' r) (split_on b'/' inner) (
          subst (All IsName) (ap (split_on b'/') tails ∙ split_on-append_both b'/' r inner)
            path_names);
    }
  where
    two_tests : (p q : Bool) → (not p || not q) ≡ false → (p ≡ true) × (q ≡ true)
    two_tests p q t = (ground arith, ground arith)

    prefix_test : (p q : Bool) → (p || not q) ≡ false → q ≡ true
    prefix_test p q t = ground arith

    same_tail : (a b : Text) → b'/' ∷ a ≡ b'/' ∷ b → a ≡ b
    same_tail a b e = cc

one_element : {A : Type 0} (xs : List A) → length xs ≢ 0 → length xs ≤ 1 → (x : A) × (xs ≡ x ∷ [])
one_element [] h k = absurd (h refl)
one_element (x ∷ []) h k = (x, refl)
one_element (x ∷ y ∷ rest) h k = absurd (omega arith)

-- A decision that is accepted has exactly one provenance entry with its package and its selected
-- identity, and puts the package below the generation root: its path is the root, a slash, and names
-- joined by slashes, none of them empty, "." or "..".
pub make_decision-IsBelow :
    (key : PackageKey) (provenance : ProvenanceSet) (selected : Sha256) (root path : Text)
    (object tree generation : Sha256) (d : PathDecision)
    → make_decision key provenance selected root path object tree generation ≡ ok d
    → ((entry : PathProvenance) × (matching_entries provenance key selected ≡ entry ∷ []))
      × IsBelow root d.final_path
unfolding make_decision
make_decision-IsBelow key provenance selected root path object tree generation d h =
    let matching = length (matching_entries provenance key selected) in
    let (u3, t3, is) =
      >>=-eq-ok
        (reject_if (eqb matching 0) LockErrorKind.incompatible_provenance
          >> reject_if (ltb 1 matching) LockErrorKind.ambiguous_selection
          >> validate_contained_absolute_path root path)
        _ h in
    let (u2, t2, contained) =
      >>=-eq-ok
        (reject_if (eqb matching 0) LockErrorKind.incompatible_provenance
          >> reject_if (ltb 1 matching) LockErrorKind.ambiguous_selection)
        (λ _. validate_contained_absolute_path root path) t3 in
    let (u1, some_match, one_match) =
      >>=-eq-ok (reject_if (eqb matching 0) LockErrorKind.incompatible_provenance)
        (λ _. reject_if (ltb 1 matching) LockErrorKind.ambiguous_selection) t2 in
    (
      one_element (matching_entries provenance key selected)
          (nonzero matching (reject_if-eq-ok _ _ some_match))
          (le_of_ltb 1 matching (reject_if-eq-ok _ _ one_match)),
      subst (IsBelow root) (path_of _ d is) (validate_contained-IsBelow root path contained),
    )
  where
    nonzero : (n : ℕ) → eqb n 0 ≡ false → n ≢ 0
    nonzero n t e = ground (arith, e)

    path_of :
        (a b : PathDecision)
        → ◌≡◌ {A = Made PathDecision} (ok a) (ok b)
        → a.final_path ≡ b.final_path
    path_of a b e = cc
