-- ===== src/Resolver/Impact/Kept.antt =====
-- What an accepted resolution leaves of the active lock.
use Prim.Native.Nat.{Ordering}
use Prim.Native.Nat.Ordering.{lt, eq, gt}
use leanbun.Base.{
  Bool, true, false, not, ◌&&◌, ◌||◌, List, [], ◌∷◌, length, eqb, Option, none, some, ◌≡◌, ◌≢◌,
  refl, sym, ◌∙◌, subst, ◌⊎◌, inl, inr, Within, All, All-imp, ok, ◌>>◌, >>=-eq-ok, reject_if,
  reject_if-eq-ok, Bool-cases, Option-cases, arith, Result,
}
use leanbun.Base.Ascending.{Ascends, Ascends-below, Ascends-tail}
use leanbun.Base.TreeMap.{
  get, insert, contains_key, get-insert_cases, get-insert_self, get-insert_ne, contains_key-none,
}
use leanbun.Lock.Model.{PackageKey, key_ord, LockedPackage}
use leanbun.Resolver.Model.{ErrorKind, ResolutionError, error, Mode, ResolvedPackage}
use leanbun.Resolver.Selecting.{ActiveLock, candidate_matches_lock}
use leanbun.Resolver.Cycles.{Packages, package_map}
use leanbun.Resolver.Impact.{
  KeySet, has_drift, has_escaped, has_disappeared, has_unknown_target, both_closures, set_keys,
  lock_map, validate_against_lock,
}

or_false : (p q : Bool) → (p || q) ≡ false → (p ≡ false) × (q ≡ false)
or_false p q t = (ground arith, ground arith)

-- a package of the map with the key, whose candidate matches the locked package
abbrev pub IsMatched : Packages → PackageKey → LockedPackage → Type 0
IsMatched selected k p =
    (q : ResolvedPackage) × (get k selected ≡ some q)
    × (candidate_matches_lock q.candidate p ≡ true)

has_drift-IsMatched :
    (selected : Packages) (active : ActiveLock) (k : PackageKey) (p : LockedPackage)
    → has_drift selected active ≡ false
    → get k active ≡ some p
    → IsMatched selected k p
unfolding has_drift get
has_drift-IsMatched selected [] k p h e = cc
has_drift-IsMatched selected ((j, v) ∷ rest) k p h e =
    let (here, further) = or_false (drifted (get j selected)) (has_drift selected rest) h in
    by_order (key_ord.cmp k j) refl here (λ x. has_drift-IsMatched selected rest k p further x) e
  where
    drifted : Option ResolvedPackage → Bool
    drifted none = true
    drifted (some r) = not (candidate_matches_lock r.candidate v)

    by_entry :
        (o : Option ResolvedPackage)
        → get k selected ≡ o
        → drifted o ≡ false
        → v ≡ p
        → IsMatched selected k p
    by_entry none x t same = cc
    by_entry (some q) x t same = (
      q,
      x,
      subst (λ (w : LockedPackage). candidate_matches_lock q.candidate w ≡ true) same
          (ground arith),
    )

    by_order :
        (r : Ordering)
        → key_ord.cmp k j ≡ r
        → drifted (get j selected) ≡ false
        → (get k rest ≡ some p → IsMatched selected k p)
        → elim r [ eq ↦ some v | _ ↦ get k rest ] ≡ some p
        → IsMatched selected k p
    by_order lt c here ih x = ih x
    by_order gt c here ih x = ih x
    by_order eq c here ih x =
        let same : k ≡ j = key_ord.eq_of_cmp k j c in
        by_entry (get k selected) refl
          (subst (λ i. drifted (get i selected) ≡ false) (sym same) here) (cc)

has_escaped_lem :
    (active : ActiveLock) (impact : KeySet) (selected : Packages) (k : PackageKey)
    (q : ResolvedPackage) (p : LockedPackage)
    → has_escaped active impact selected ≡ false
    → get k selected ≡ some q
    → get k active ≡ some p
    → contains_key k impact ≡ false
    → candidate_matches_lock q.candidate p ≡ true
unfolding has_escaped get
has_escaped_lem active impact [] k q p h e f g = cc
has_escaped_lem active impact ((j, r) ∷ rest) k q p h e f g =
    let (here, further) =
      or_false (escaped r (contains_key j impact) (get j active)) (has_escaped active impact rest)
        h in
    by_order (key_ord.cmp k j) refl here
      (λ x. has_escaped_lem active impact rest k q p further x f g) e
  where
    escaped : ResolvedPackage → Bool → Option LockedPackage → Bool
    escaped u i none = false
    escaped u i (some old) = not i && not (candidate_matches_lock u.candidate old)

    by_entry :
        (u : ResolvedPackage) (o : Option LockedPackage) (i : Bool)
        → o ≡ some p
        → i ≡ false
        → escaped u i o ≡ false
        → candidate_matches_lock u.candidate p ≡ true
    by_entry u none i x y t = cc
    by_entry u (some old) true x y t = cc
    by_entry u (some old) false x y t =
        subst (λ (w : LockedPackage). candidate_matches_lock u.candidate w ≡ true) (some_is old p x)
          (ground arith)
      where
        some_is : (a b : LockedPackage) → some a ≡ some b → a ≡ b
        some_is a b z = cc

    by_order :
        (o : Ordering)
        → key_ord.cmp k j ≡ o
        → escaped r (contains_key j impact) (get j active) ≡ false
        → (get k rest ≡ some q → candidate_matches_lock q.candidate p ≡ true)
        → elim o [ eq ↦ some r | _ ↦ get k rest ] ≡ some q
        → candidate_matches_lock q.candidate p ≡ true
    by_order lt c here ih x = ih x
    by_order gt c here ih x = ih x
    by_order eq c here ih x =
        let same : k ≡ j = key_ord.eq_of_cmp k j c in
        subst (λ (u : ResolvedPackage). candidate_matches_lock u.candidate p ≡ true) (some_is r q x)
          (by_entry r (get j active) (contains_key j impact)
            (subst (λ i. get i active ≡ some p) same f)
            (subst (λ i. contains_key i impact ≡ false) same g) here)
      where
        some_is : (a b : ResolvedPackage) → some a ≡ some b → a ≡ b
        some_is a b z = cc

has_disappeared_lem :
    (selected : Packages) (impact : KeySet) (active : ActiveLock) (k : PackageKey)
    (p : LockedPackage)
    → has_disappeared selected impact active ≡ false
    → get k active ≡ some p
    → contains_key k impact ≡ false
    → contains_key k selected ≡ true
unfolding has_disappeared get
has_disappeared_lem selected impact [] k p h e g = cc
has_disappeared_lem selected impact ((j, v) ∷ rest) k p h e g =
    let (here, further) =
      or_false (not (contains_key j selected) && not (contains_key j impact))
        (has_disappeared selected impact rest) h in
    by_order (key_ord.cmp k j) refl here
      (λ x. has_disappeared_lem selected impact rest k p further x g) e
  where
    by_order :
        (o : Ordering)
        → key_ord.cmp k j ≡ o
        → (not (contains_key j selected) && not (contains_key j impact)) ≡ false
        → (get k rest ≡ some p → contains_key k selected ≡ true)
        → elim o [ eq ↦ some v | _ ↦ get k rest ] ≡ some p
        → contains_key k selected ≡ true
    by_order lt c here ih x = ih x
    by_order gt c here ih x = ih x
    by_order eq c here ih x =
        let same : j ≡ k = sym (key_ord.eq_of_cmp k j c) in
        both (contains_key k selected) (contains_key k impact) g (
          subst (λ i. (not (contains_key i selected) && not (contains_key i impact)) ≡ false) same
            here)
      where
        both : (a b : Bool) → b ≡ false → (not a && not b) ≡ false → a ≡ true
        both a b s t = ground arith

set_keys-Within : (k : PackageKey) (s : KeySet) → contains_key k s ≡ true → Within k (set_keys s)
unfolding set_keys contains_key get
set_keys-Within k [] h = cc
set_keys-Within k ((j, u) ∷ s) h = by_order (key_ord.cmp k j) refl (set_keys-Within k s) h
  where
    by_order :
        (o : Ordering)
        → key_ord.cmp k j ≡ o
        → (elim (get k s) [ none ↦ false | some _ ↦ true ] ≡ true → Within k (set_keys s))
        → elim (elim o as (λ _. Option (Unit {0})) [ eq ↦ some u | _ ↦ get k s ]) [
          | none ↦ false
          | some _ ↦ true
        ]
          ≡ true
        → Within k (set_keys ((j, u) ∷ s))
    by_order lt c ih x = inr (ih x)
    by_order gt c ih x = inr (ih x)
    by_order eq c ih x = inl (sym (key_ord.eq_of_cmp k j c))

pub validate_frozen :
    (active : ActiveLock) (selected : Packages) (targets impact : List PackageKey)
    → validate_against_lock Mode.frozen active selected targets ≡ ok impact
    → impact ≡ []
unfolding validate_against_lock
validate_frozen active selected targets impact h =
    let (u, tested, rest) =
      >>=-eq-ok
        (reject_if (not (eqb (length active) (length selected)) || has_drift selected active)
          (error ErrorKind.frozen_graph_drift))
        _ h in
    empty rest
  where
    empty : ◌≡◌ {A = Result ResolutionError (List PackageKey)} (ok []) (ok impact) → impact ≡ []
    empty e = cc

-- a locked package is selected as it is locked, or it is in the impact closure
pub validate_against_lock_lem :
    (mode : Mode) (active : ActiveLock) (selected : Packages) (targets impact : List PackageKey)
    → validate_against_lock mode active selected targets ≡ ok impact
    → (k : PackageKey) (p : LockedPackage) → get k active ≡ some p
    → IsMatched selected k p ⊎ Within k impact
unfolding validate_against_lock
validate_against_lock_lem Mode.frozen active selected targets impact h k p e =
    let (u, tested, rest) =
      >>=-eq-ok
        (reject_if (not (eqb (length active) (length selected)) || has_drift selected active)
          (error ErrorKind.frozen_graph_drift))
        _ h in
    let drift =
      or_false (not (eqb (length active) (length selected))) (has_drift selected active)
        (reject_if-eq-ok _ _ tested) in
    inl (has_drift-IsMatched selected active k p drift.1 e)
validate_against_lock_lem (Mode.update packages) active selected targets impact h k p e =
    let (s, closures, rest) =
      >>=-eq-ok
        (reject_if (has_unknown_target active selected targets)
            (error ErrorKind.unknown_update_target)
          >> both_closures active selected targets)
        (λ s.
          reject_if (has_escaped active s selected) (error ErrorKind.update_escapes_impact_closure)
          >> reject_if (has_disappeared selected s active)
              (error ErrorKind.update_escapes_impact_closure)
          >> ok (set_keys s))
        h in
    let (u, tested, is) =
      >>=-eq-ok
        (reject_if (has_escaped active s selected) (error ErrorKind.update_escapes_impact_closure)
          >> reject_if (has_disappeared selected s active)
              (error ErrorKind.update_escapes_impact_closure))
        (λ _. ok (set_keys s)) rest in
    let (v, escaped, disappeared) =
      >>=-eq-ok
        (reject_if (has_escaped active s selected) (error ErrorKind.update_escapes_impact_closure))
        (λ _.
          reject_if (has_disappeared selected s active)
            (error ErrorKind.update_escapes_impact_closure))
        tested in
    elim (Bool-cases (contains_key k s)) [
      | inl inside ↦
          inr (subst (Within k) (keys_are (set_keys s) impact is) (set_keys-Within k s inside))
      | inr outside ↦ elim (Option-cases (get k selected)) [
        | inl gone ↦ absurd (
            contradiction (contains_key k selected) (contains_key-none k selected gone) (
              has_disappeared_lem selected s active k p (reject_if-eq-ok _ _ disappeared) e
                outside))
        | inr (q, found) ↦ inl (
          q,
          found,
          has_escaped_lem active s selected k q p (reject_if-eq-ok _ _ escaped) found e outside,
        )
      ]
    ]
  where
    keys_are :
        (a b : List PackageKey)
        → ◌≡◌ {A = Result ResolutionError (List PackageKey)} (ok a) (ok b)
        → a ≡ b
    keys_are a b x = cc

    contradiction : (b : Bool) → b ≡ false → b ≡ true → ⊥
    contradiction b x y = cc

-- the maps hold what they are built from
pub package_map-Within :
    (ps : List ResolvedPackage) (m : Packages) (k : PackageKey) (q : ResolvedPackage)
    → get k (package_map ps m) ≡ some q
    → Within q ps ⊎ (get k m ≡ some q)
unfolding package_map
package_map-Within [] m k q e = inr e
package_map-Within (p ∷ ps) m k q e =
    elim (package_map-Within ps (insert p.candidate.key p m) k q e) [
      | inl w ↦ inl (inr w)
      | inr f ↦ elim (get-insert_cases p.candidate.key k p m f) [
        | inl (_, same) ↦ inl (inl same)
        | inr old ↦ inr old
      ]
    ]

below_ne : (a b : PackageKey) → key_ord.cmp a b ≡ lt → a ≢ b
below_ne a b h e = cc (key_ord.cmp_refl b)

lock_map_other :
    (ps : List LockedPackage) (m : ActiveLock) (k : PackageKey)
    → All (λ (p : LockedPackage). k ≢ p.key) ps
    → get k (lock_map ps m) ≡ get k m
unfolding lock_map
lock_map_other [] m k h = refl
lock_map_other (p ∷ ps) m k h =
    lock_map_other ps (insert p.key p m) k h.1 ∙ get-insert_ne p.key k p m h.0

pub lock_map_lem :
    (ps : List LockedPackage) (m : ActiveLock) (p : LockedPackage)
    → Ascends (λ (x : LockedPackage). x.key) ps
    → Within p ps
    → get p.key (lock_map ps m) ≡ some p
unfolding lock_map
lock_map_lem [] m p h w = absurd w
lock_map_lem (x ∷ ps) m p h (inl e) =
    subst (λ (y : LockedPackage). get y.key (lock_map ps (insert x.key x m)) ≡ some y) e
      (lock_map_other ps (insert x.key x m) x.key (
          All-imp (λ y below. below_ne x.key y.key below) ps
            (Ascends-below (λ (y : LockedPackage). y.key) x ps h))
        ∙ get-insert_self x.key x m)
lock_map_lem (x ∷ ps) m p h (inr w) =
    lock_map_lem ps (insert x.key x m) p (Ascends-tail (λ (y : LockedPackage). y.key) x ps h) w
