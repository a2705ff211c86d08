-- ===== src/Resolver/Selecting/Fuel.antt =====
-- The keys of the registry for which nothing is selected yet, counted, and what an insertion does to
-- the count.
use Prim.Native.Nat.{Ordering}
use Prim.Native.Nat.Ordering.{lt, eq, gt}
use leanbun.Base.{
  ℕ, suc, ◌+◌, ◌≤◌, List, [], ◌∷◌, Option, none, some, ◌≡◌, refl, sym, ap, subst, arith,
}
use leanbun.Base.TreeMap.{TreeMap, get, insert, get-insert, get-insert_self}
use leanbun.Lock.Model.{PackageKey, key_ord}
use leanbun.Resolver.Model.{Candidate, Selected}
use leanbun.Resolver.Selecting.Defs.{Registry}

abbrev vacant : Option Selected → ℕ
vacant none = 1
vacant (some e) = 0

-- the keys of the registry for which nothing is selected
unfoldable pub free : Registry → TreeMap PackageKey Selected → ℕ
free [] selected = 0
free ((k, cs) ∷ registry) selected = vacant (get k selected) + free registry selected

vacant-insert :
    (j k : PackageKey) (e : Selected) (selected : TreeMap PackageKey Selected)
    → vacant (get j (insert k e selected)) ≤ vacant (get j selected)
vacant-insert j k e selected =
    subst (λ (o : Option Selected). vacant o ≤ vacant (get j selected))
      (sym (get-insert k j e selected)) (by_order (key_ord.cmp j k))
  where
    by_order :
        (r : Ordering)
        → vacant (elim r [ eq ↦ some e | _ ↦ get j selected ]) ≤ vacant (get j selected)
    by_order lt = omega arith
    by_order gt = omega arith
    by_order eq = omega arith

free-insert :
    (registry : Registry) (k : PackageKey) (e : Selected) (selected : TreeMap PackageKey Selected)
    → free registry (insert k e selected) ≤ free registry selected
unfolding free
free-insert [] k e selected = omega arith
free-insert ((j, cs) ∷ registry) k e selected =
    omega (arith, free-insert registry k e selected, vacant-insert j k e selected)

-- a new key of the registry is one vacancy less
pub free-insert_new :
    (registry : Registry) (k : PackageKey) (e : Selected) (selected : TreeMap PackageKey Selected)
    {cs : List Candidate}
    → get k registry ≡ some cs
    → get k selected ≡ none
    → suc (free registry (insert k e selected)) ≤ free registry selected
unfolding free get
free-insert_new [] k e selected h new = cc
free-insert_new ((j, ds) ∷ registry) k e selected {cs} h new =
    by_order (key_ord.cmp k j) refl (λ x. free-insert_new registry k e selected x new) h
  where
    by_order :
        (r : Ordering)
        → key_ord.cmp k j ≡ r
        → (get k registry ≡ some cs
            → suc (free registry (insert k e selected)) ≤ free registry selected)
        → elim r [ eq ↦ some ds | _ ↦ get k registry ] ≡ some cs
        → suc (vacant (get j (insert k e selected)) + free registry (insert k e selected))
          ≤ vacant (get j selected) + free registry selected
    by_order lt c ih x = omega (arith, ih x, vacant-insert j k e selected)
    by_order gt c ih x = omega (arith, ih x, vacant-insert j k e selected)
    by_order eq c ih x =
        let same : k ≡ j = key_ord.eq_of_cmp k j c in
        let filled : vacant (get j (insert k e selected)) ≡ 0 =
          subst (λ i. vacant (get i (insert k e selected)) ≡ 0) same
            (ap vacant (get-insert_self k e selected)) in
        let was : vacant (get j selected) ≡ 1 =
          subst (λ i. vacant (get i selected) ≡ 1) same (ap vacant new) in
        omega (arith, free-insert registry k e selected)
