-- ===== src/Resolver/Impact/Ending.antt =====
-- The fuel of the loop of the impact closures.
use Prim.Native.Nat.{Ordering}
use Prim.Native.Nat.Ordering.{lt, eq, gt}
use leanbun.Base.{
  ℕ, zero, suc, ◌+◌, ◌≤◌, Bool, List, [], ◌∷◌, ◌++◌, length, length-append, Option, none, some,
  filter, ◌≡◌, refl, ap, subst, arith, Option-cases, inl, inr,
}
use leanbun.Base.TreeMap.{
  TreeMap, get, insert, contains_key, get-insert, get-insert_self, contains_key-some,
  contains_key-none,
}
use leanbun.Lock.Model.{PackageKey, key_ord}
use leanbun.Resolver.Impact.{KeySet, known, children, close, count_edges, impact_closure}

pub length-filter :
    {A : Type 0} (test : A → Bool) (xs : List A) → length (filter test xs) ≤ length xs
unfolding filter
length-filter test [] = omega arith
length-filter test (x ∷ xs) = ground (arith, length-filter test xs)

-- the dependencies of a package that is not in the closure yet
abbrev owing : Option (Unit {0}) → ℕ → ℕ
owing none n = n
owing (some _) n = 0

owing-insert :
    (j k : PackageKey) (impact : KeySet) (n : ℕ)
    → owing (get j (insert k tt impact)) n ≤ owing (get j impact) n
owing-insert j k impact n = rw (get-insert k j tt impact) (by_order (key_ord.cmp j k))
  where
    by_order :
        (r : Ordering)
        → owing (elim r as (λ _. Option (Unit {0})) [ eq ↦ some tt | _ ↦ get j impact ]) n
          ≤ owing (get j impact) n
    by_order lt = omega arith
    by_order gt = omega arith
    by_order eq = omega arith

module _ {V : Type 0} (deps : V → List PackageKey) where
  unfoldable owed : TreeMap PackageKey V → KeySet → ℕ
  owed [] impact = 0
  owed ((k, p) ∷ m) impact = owing (get k impact) (length (deps p)) + owed m impact

  owed_empty : (m : TreeMap PackageKey V) → owed m [] ≡ count_edges deps m
  unfolding owed count_edges get
  owed_empty [] = refl
  owed_empty ((k, p) ∷ m) = ap (λ n. length (deps p) + n) (owed_empty m)

  owed-insert :
      (m : TreeMap PackageKey V) (k : PackageKey) (impact : KeySet)
      → owed m (insert k tt impact) ≤ owed m impact
  unfolding owed
  owed-insert [] k impact = omega arith
  owed-insert ((j, p) ∷ m) k impact =
      omega (arith, owed-insert m k impact, owing-insert j k impact (length (deps p)))

  -- a package that comes in pays for its dependencies
  owed-insert_new :
      (m : TreeMap PackageKey V) (k : PackageKey) (impact : KeySet) (p : V)
      → get k m ≡ some p
      → get k impact ≡ none
      → length (deps p) + owed m (insert k tt impact) ≤ owed m impact
  unfolding owed get
  owed-insert_new [] k impact p h new = cc
  owed-insert_new ((j, q) ∷ m) k impact p h new =
      by_order (key_ord.cmp k j) refl (λ x. owed-insert_new m k impact p x new) h
    where
      some_is : (a b : V) → some a ≡ some b → a ≡ b
      some_is a b e = cc

      by_order :
          (r : Ordering)
          → key_ord.cmp k j ≡ r
          → (get k m ≡ some p → length (deps p) + owed m (insert k tt impact) ≤ owed m impact)
          → elim r [ eq ↦ some q | _ ↦ get k m ] ≡ some p
          → length (deps p)
              + (owing (get j (insert k tt impact)) (length (deps q)) + owed m (insert k tt impact))
            ≤ owing (get j impact) (length (deps q)) + owed m impact
      by_order lt c ih x = omega (arith, ih x, owing-insert j k impact (length (deps q)))
      by_order gt c ih x = omega (arith, ih x, owing-insert j k impact (length (deps q)))
      by_order eq c ih x =
          let same : k ≡ j = key_ord.eq_of_cmp k j c in
          let paid : owing (get j (insert k tt impact)) (length (deps q)) ≡ 0 =
            subst (λ i. owing (get i (insert k tt impact)) (length (deps q)) ≡ 0) same
              (ap (λ o. owing o (length (deps q))) (get-insert_self k tt impact)) in
          let was : owing (get j impact) (length (deps q)) ≡ length (deps q) =
            subst (λ i. owing (get i impact) (length (deps q)) ≡ length (deps q)) same
              (ap (λ o. owing o (length (deps q))) new) in
          let is : length (deps q) ≡ length (deps p) = ap (λ v. length (deps v)) (some_is q p x) in
          omega (arith, owed-insert m k impact)

  children-owed :
      (m : TreeMap PackageKey V) (k : PackageKey) (impact : KeySet)
      → get k impact ≡ none
      → length (children deps m k) + owed m (insert k tt impact) ≤ owed m impact
  unfolding children known
  children-owed m k impact new = elim (Option-cases (get k m)) [
    | inl missing ↦ rw (missing, children, length) (omega (arith, owed-insert m k impact))
    | inr (p, found) ↦
        rw (found, children)
          (omega (
            arith,
            owed-insert_new m k impact p found new,
            length-filter (λ j. contains_key j m) (deps p),
          ))
  ]

  close_ends :
      (m : TreeMap PackageKey V) (fuel : ℕ) (queue : List PackageKey) (impact : KeySet)
      → length queue + owed m impact + 1 ≤ fuel
      → (result : KeySet) × (close deps m fuel queue impact ≡ some result)
  unfolding close
  close_ends m zero queue impact h = absurd (omega arith)
  close_ends m (suc fuel) [] impact h = (impact, refl)
  close_ends m (suc fuel) (key ∷ rest) impact h = elim (Option-cases (get key impact)) [
    | inr (u, old) ↦
        let (result, e) = close_ends m fuel rest impact (omega arith) in
        (result, rw (contains_key-some key impact old, close) e)
    | inl new ↦
        let (result, e) = close_ends m fuel (rest ++ children deps m key) (insert key tt impact) (
          omega
            (arith, length-append rest (children deps m key), children-owed m key impact new)) in
        (result, rw (contains_key-none key impact new, close) e)
  ]

  -- The loop has fuel enough.
  pub impact_closure_ends :
      (m : TreeMap PackageKey V) (targets : List PackageKey)
      → (result : KeySet) × (impact_closure deps m targets ≡ some result)
  unfolding impact_closure known
  impact_closure_ends m targets =
      close_ends m (length targets + count_edges deps m + 1) (known deps m targets) []
        (omega (arith, owed_empty m, length-filter (λ k. contains_key k m) targets))
