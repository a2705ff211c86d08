-- ===== src/Base/Ascending.antt =====
-- Lists in the order of a key: what sorting gives, and what the absence of equal neighbours adds.
use Prim.Native.Nat.{ℕ, zero, suc, Ordering}
use Prim.Native.Nat.Ordering.{lt, eq, gt}
use mathlib.Core.Path.{◌≡◌, refl, ap, subst}
use mathlib.Core.Logic.{◌≢◌}
use mathlib.Core.Bool.{Bool, false, ◌||◌}
use mathlib.Core.Option.{some}
use mathlib.Core.List.{List, [], ◌∷◌, map}
use native.Mathlib.Omega.{arith}
use leanbun.Base.Lists.{All, get_elem?}
use leanbun.Base.Order.{Ord}
use leanbun.Base.Equality.{Equal, ◌==◌, ==_iff}
use leanbun.Base.Sorting.{sort_by, insert_sorted, has_repeat}

module _ {A K : Type 0} ⦃o : Ord K⦄ (key : A → K) where
  -- the comparison of two elements by their keys
  abbrev pub by_key : A → A → Ordering
  by_key a b = o.cmp (key a) (key b)

  -- no element is greater than the next
  abbrev pub IsSorted : List A → Type 0
  IsSorted [] = Unit
  IsSorted (x ∷ []) = Unit
  IsSorted (x ∷ y ∷ rest) = (o.cmp (key x) (key y) ≢ gt) × IsSorted (y ∷ rest)

  -- each element is less than the next
  abbrev pub Ascends : List A → Type 0
  Ascends [] = Unit
  Ascends (x ∷ []) = Unit
  Ascends (x ∷ y ∷ rest) = (o.cmp (key x) (key y) ≡ lt) × Ascends (y ∷ rest)

  insert_sorted-IsSorted_cons :
      (w x : A) (ys : List A)
      → o.cmp (key w) (key x) ≢ gt
      → IsSorted (w ∷ ys)
      → IsSorted (insert_sorted by_key x ys)
      → IsSorted (w ∷ insert_sorted by_key x ys)
  unfolding insert_sorted
  insert_sorted-IsSorted_cons w x [] h s k = (h, tt)
  insert_sorted-IsSorted_cons w x (y ∷ ys) h s k = by_order (o.cmp (key x) (key y)) k
    where
      by_order :
          (r : Ordering)
          → IsSorted (elim r [ gt ↦ y ∷ insert_sorted by_key x ys | _ ↦ x ∷ y ∷ ys ])
          → IsSorted (w ∷ elim r [ gt ↦ y ∷ insert_sorted by_key x ys | _ ↦ x ∷ y ∷ ys ])
      by_order lt t = (h, t)
      by_order eq t = (h, t)
      by_order gt t = (s.0, t)

  tail-IsSorted : (y : A) (ys : List A) → IsSorted (y ∷ ys) → IsSorted ys
  tail-IsSorted y [] h = tt
  tail-IsSorted y (z ∷ ys) h = h.1

  insert_sorted-IsSorted :
      (x : A) (ys : List A) → IsSorted ys → IsSorted (insert_sorted by_key x ys)
  unfolding insert_sorted
  insert_sorted-IsSorted x [] h = tt
  insert_sorted-IsSorted x (y ∷ ys) h =
      by_order (o.cmp (key x) (key y)) refl (insert_sorted-IsSorted x ys (tail-IsSorted y ys h))
    where
      by_order :
          (r : Ordering)
          → o.cmp (key x) (key y) ≡ r
          → IsSorted (insert_sorted by_key x ys)
          → IsSorted (elim r [ gt ↦ y ∷ insert_sorted by_key x ys | _ ↦ x ∷ y ∷ ys ])
      by_order lt e ih = (λ g. cc (e, g), h)
      by_order eq e ih = (λ g. cc (e, g), h)
      by_order gt e ih =
          insert_sorted-IsSorted_cons y x ys (λ g. cc (g, o.lt_of_gt (key x) (key y) e)) h ih

  -- sorting sorts
  pub sort_by-IsSorted : (xs : List A) → IsSorted (sort_by by_key xs)
  unfolding sort_by
  sort_by-IsSorted [] = tt
  sort_by-IsSorted (x ∷ xs) = insert_sorted-IsSorted x (sort_by by_key xs) (sort_by-IsSorted xs)

  -- and leaves a sorted list as it is
  pub IsSorted-sort_by : (xs : List A) → IsSorted xs → sort_by by_key xs ≡ xs
  unfolding sort_by insert_sorted
  IsSorted-sort_by [] h = refl
  IsSorted-sort_by (x ∷ []) h = refl
  IsSorted-sort_by (x ∷ y ∷ rest) h =
      rw (IsSorted-sort_by (y ∷ rest) h.1) (by_order (o.cmp (key x) (key y)) refl)
    where
      by_order :
          (r : Ordering)
          → o.cmp (key x) (key y) ≡ r
          → elim r [ gt ↦ y ∷ insert_sorted by_key x rest | _ ↦ x ∷ y ∷ rest ] ≡ x ∷ y ∷ rest
      by_order lt e = refl
      by_order eq e = refl
      by_order gt e = absurd (h.0 e)

  pub sort_by_idempotent : (xs : List A) → sort_by by_key (sort_by by_key xs) ≡ sort_by by_key xs
  sort_by_idempotent xs = IsSorted-sort_by (sort_by by_key xs) (sort_by-IsSorted xs)

  module _ ⦃q : Equal K⦄ where
    -- sorted, and no two neighbours have one key
    pub Ascends-of_sorted :
        (xs : List A) → IsSorted xs → has_repeat (map key xs) ≡ false → Ascends xs
    unfolding has_repeat
    Ascends-of_sorted [] s r = tt
    Ascends-of_sorted (x ∷ []) s r = tt
    Ascends-of_sorted (x ∷ y ∷ rest) s r = (
      by_order (o.cmp (key x) (key y)) refl,
      Ascends-of_sorted (y ∷ rest) s.1
          (second_false (key x == key y) (has_repeat (map key (y ∷ rest))) r),
    )
      where
        second_false : (a b : Bool) → (a || b) ≡ false → b ≡ false
        second_false a b h = ground arith

        first_false : (a b : Bool) → (a || b) ≡ false → a ≡ false
        first_false a b h = ground arith

        by_order : (t : Ordering) → o.cmp (key x) (key y) ≡ t → o.cmp (key x) (key y) ≡ lt
        by_order lt e = e
        by_order gt e = absurd (s.0 e)
        by_order eq e = cc (
          first_false (key x == key y) (has_repeat (map key (y ∷ rest))) r,
          (==_iff (key x) (key y)).1 (o.eq_of_cmp (key x) (key y) e),
        )

  -- an element is less than all that follow
  pub Ascends-below :
      (x : A) (xs : List A) → Ascends (x ∷ xs) → All (λ y. o.cmp (key x) (key y) ≡ lt) xs
  Ascends-below x [] h = tt
  Ascends-below x (y ∷ []) h = (h.0, tt)
  Ascends-below x (y ∷ z ∷ rest) h =
      (h.0, Ascends-below x (z ∷ rest) (o.lt_trans (key x) (key y) (key z) h.0 h.1.0, h.1.1))

  pub Ascends-tail : (x : A) (xs : List A) → Ascends (x ∷ xs) → Ascends xs
  Ascends-tail x [] h = tt
  Ascends-tail x (y ∷ rest) h = h.1

  All-get_elem :
      (P : A → Type 0) (xs : List A) (i : ℕ) (a : A) → All P xs → get_elem? xs i ≡ some a → P a
  All-get_elem P [] i a h e = cc
  All-get_elem P (x ∷ xs) zero a h e = let same : x ≡ a = cc in subst P same h.0
  All-get_elem P (x ∷ xs) (suc i) a h e = All-get_elem P xs i a h.1 e

  -- in an ascending list a key stands at one place
  pub Ascends-distinct :
      (xs : List A) (i j : ℕ) (a b : A)
      → Ascends xs
      → get_elem? xs i ≡ some a
      → get_elem? xs j ≡ some b
      → key a ≡ key b
      → i ≡ j
  Ascends-distinct [] i j a b h e f k = cc
  Ascends-distinct (x ∷ xs) zero zero a b h e f k = refl
  Ascends-distinct (x ∷ xs) zero (suc j) a b h e f k =
      let below = All-get_elem (λ y. o.cmp (key x) (key y) ≡ lt) xs j b (Ascends-below x xs h) f in
      let same : x ≡ a = cc in absurd (cc (below, same, k, o.cmp_refl (key b)))
  Ascends-distinct (x ∷ xs) (suc i) zero a b h e f k =
      let below = All-get_elem (λ y. o.cmp (key x) (key y) ≡ lt) xs i a (Ascends-below x xs h) e in
      let same : x ≡ b = cc in absurd (cc (below, same, k, o.cmp_refl (key a)))
  Ascends-distinct (x ∷ xs) (suc i) (suc j) a b h e f k =
      ap suc (Ascends-distinct xs i j a b (Ascends-tail x xs h) e f k)
