-- ===== src/Base/TreeMap.antt =====
-- `BTreeMap`: the entries in ascending order of their keys.
use Prim.Native.Nat.{Ordering}
use Prim.Native.Nat.Ordering.{lt, eq, gt}
use mathlib.Core.Path.{◌≡◌, refl, sym, ap, ◌∙◌}
use mathlib.Core.Logic.{◌≢◌, ◌⊎◌, inl, inr}
use mathlib.Core.Bool.{Bool, true, false}
use mathlib.Core.Option.{Option, none, some}
use mathlib.Core.List.{List, [], ◌∷◌}
use native.Mathlib.Omega.{arith}
use leanbun.Base.Order.{Ord}

abbrev pub TreeMap {ℓ κ} : Type ℓ → Type κ → Type (ℓ ⊔ κ)
TreeMap K V = List (K × V)

abbrev is_some {ℓ} : {A : Type ℓ} → Option A → Bool
is_some none = false
is_some (some _) = true

module _ {ℓ κ} {K : Type ℓ} {V : Type κ} ⦃o : Ord K⦄ where
  unfoldable pub get : K → TreeMap K V → Option V
  get k [] = none
  get k ((j, v) ∷ m) = let further = get k m in elim (o.cmp k j) [ eq ↦ some v | _ ↦ further ]

  unfoldable pub contains_key : K → TreeMap K V → Bool
  unfolding get
  contains_key k m = elim (get k m) [ none ↦ false | some _ ↦ true ]

  unfoldable pub insert : K → V → TreeMap K V → TreeMap K V
  insert k v [] = (k, v) ∷ []
  insert k v ((j, w) ∷ m) =
      let further = (j, w) ∷ insert k v m in
      elim (o.cmp k j) [ lt ↦ (k, v) ∷ (j, w) ∷ m | eq ↦ (j, v) ∷ m | gt ↦ further ]

  -- every key is greater than `k`
  abbrev pub Above : K → TreeMap K V → Type 0
  Above k [] = Unit
  Above k ((j, v) ∷ m) = (o.cmp k j ≡ lt) × Above k m

  abbrev pub IsAscending : TreeMap K V → Type 0
  IsAscending [] = Unit
  IsAscending ((k, v) ∷ m) = Above k m × IsAscending m

  Above-trans : (a b : K) (m : TreeMap K V) → o.cmp a b ≡ lt → Above b m → Above a m
  Above-trans a b [] h t = tt
  Above-trans a b ((j, v) ∷ m) h t = (o.lt_trans a b j h t.0, Above-trans a b m h t.1)

  Above-insert :
      (a k : K) (v : V) (m : TreeMap K V) → o.cmp a k ≡ lt → Above a m → Above a (insert k v m)
  unfolding insert
  Above-insert a k v [] h t = (h, tt)
  Above-insert a k v ((j, w) ∷ m) h t = ground (arith, Above-insert a k v m)

  pub insert-IsAscending :
      (k : K) (v : V) (m : TreeMap K V) → IsAscending m → IsAscending (insert k v m)
  unfolding insert
  insert-IsAscending k v [] h = (tt, tt)
  insert-IsAscending k v ((j, w) ∷ m) h = ground (
    arith,
    insert-IsAscending k v m,
    o.lt_of_gt k j,
    Above-insert j k v m,
    Above-trans k j m,
    o.eq_of_cmp k j,
  )

  get-Above : (k : K) (m : TreeMap K V) → Above k m → get k m ≡ none
  unfolding get
  get-Above k [] h = refl
  get-Above k ((j, v) ∷ m) h = ground (arith, get-Above k m h.1)

  -- what a key reads after an insertion, in a map of any order of keys
  pub get-insert :
      (k j : K) (v : V) (m : TreeMap K V)
      → get j (insert k v m) ≡ elim (o.cmp j k) [ eq ↦ some v | _ ↦ get j m ]
  unfolding get insert
  get-insert k j v [] = refl
  get-insert k j v ((i, w) ∷ m) =
      ground
        (arith, get-insert k j v m, o.eq_of_cmp k i, o.eq_of_cmp j k, o.eq_of_cmp j i, o.cmp_refl k)

  pub get-insert_self : (k : K) (v : V) (m : TreeMap K V) → get k (insert k v m) ≡ some v
  get-insert_self k v m = simp (get-insert, o.cmp_refl)

  -- the same by cases
  pub get-insert_cases :
      (k j : K) (v : V) (m : TreeMap K V) {w : V}
      → get j (insert k v m) ≡ some w
      → ((j ≡ k) × (v ≡ w)) ⊎ (get j m ≡ some w)
  get-insert_cases k j v m {w} h = by_order (o.cmp j k) refl (sym (get-insert k j v m) ∙ h)
    where
      by_order :
          (r : Ordering)
          → o.cmp j k ≡ r
          → elim r [ eq ↦ some v | _ ↦ get j m ] ≡ some w
          → ((j ≡ k) × (v ≡ w)) ⊎ (get j m ≡ some w)
      by_order lt e g = inr g
      by_order gt e g = inr g
      by_order eq e g = inl (o.eq_of_cmp j k e, cc)

  pub get-insert_ne : (k j : K) (v : V) (m : TreeMap K V) → j ≢ k → get j (insert k v m) ≡ get j m
  get-insert_ne k j v m ne = get-insert k j v m ∙ by_order (o.cmp j k) refl
    where
      by_order : (r : Ordering) → o.cmp j k ≡ r → elim r [ eq ↦ some v | _ ↦ get j m ] ≡ get j m
      by_order lt e = refl
      by_order gt e = refl
      by_order eq e = absurd (ne (o.eq_of_cmp j k e))

  contains_key-get : (k : K) (m : TreeMap K V) → contains_key k m ≡ is_some (get k m)
  unfolding contains_key
  contains_key-get k m = by_entry (get k m)
    where
      by_entry : (e : Option V) → elim e [ none ↦ false | some _ ↦ true ] ≡ is_some e
      by_entry none = refl
      by_entry (some v) = refl

  pub contains_key-some :
      (k : K) (m : TreeMap K V) {v : V} → get k m ≡ some v → contains_key k m ≡ true
  contains_key-some k m e = contains_key-get k m ∙ ap is_some e

  pub contains_key-none : (k : K) (m : TreeMap K V) → get k m ≡ none → contains_key k m ≡ false
  contains_key-none k m e = contains_key-get k m ∙ ap is_some e

  -- membership after an insertion
  pub contains_key-insert_self :
      (k : K) (v : V) (m : TreeMap K V) → contains_key k (insert k v m) ≡ true
  contains_key-insert_self k v m = contains_key-some k (insert k v m) (get-insert_self k v m)

  contains_key-insert :
      (k j : K) (v : V) (m : TreeMap K V)
      → contains_key j (insert k v m) ≡ is_some (elim (o.cmp j k) [ eq ↦ some v | _ ↦ get j m ])
  contains_key-insert k j v m = contains_key-get j (insert k v m) ∙ ap is_some (get-insert k j v m)

  pub contains_key-insert_keeps :
      (k j : K) (v : V) (m : TreeMap K V)
      → contains_key j m ≡ true
      → contains_key j (insert k v m) ≡ true
  contains_key-insert_keeps k j v m h =
      contains_key-insert k j v m ∙ by_order (o.cmp j k) (sym (contains_key-get j m) ∙ h)
    where
      by_order :
          (r : Ordering)
          → is_some (get j m) ≡ true
          → is_some (elim r [ eq ↦ some v | _ ↦ get j m ]) ≡ true
      by_order lt t = t
      by_order gt t = t
      by_order eq t = refl

  pub contains_key-insert_cases :
      (k j : K) (v : V) (m : TreeMap K V)
      → contains_key j (insert k v m) ≡ true
      → (j ≡ k) ⊎ (contains_key j m ≡ true)
  contains_key-insert_cases k j v m h =
      by_order (o.cmp j k) refl (sym (contains_key-insert k j v m) ∙ h)
    where
      by_order :
          (r : Ordering)
          → o.cmp j k ≡ r
          → is_some (elim r [ eq ↦ some v | _ ↦ get j m ]) ≡ true
          → (j ≡ k) ⊎ (contains_key j m ≡ true)
      by_order lt e t = inr (contains_key-get j m ∙ t)
      by_order gt e t = inr (contains_key-get j m ∙ t)
      by_order eq e t = inl (o.eq_of_cmp j k e)
