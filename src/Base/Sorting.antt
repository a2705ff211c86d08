-- ===== src/Base/Sorting.antt =====
-- `sort_by`, which is stable, and `dedup`.
use Prim.Native.Nat.{Ordering}
use Prim.Native.Nat.Ordering.{lt, eq, gt}
use mathlib.Core.Path.{◌≡◌, refl, sym, subst}
use mathlib.Core.Bool.{Bool, true, false, ◌||◌}
use mathlib.Core.Logic.{◌⊎◌, inl, inr}
use mathlib.Core.List.{List, [], ◌∷◌}
use leanbun.Base.Lists.{Within}
use leanbun.Base.Equality.{Equal, ◌==◌, ==_iff}

module _ {A : Type 0} (cmp : A → A → Ordering) where
  unfoldable pub insert_sorted : A → List A → List A
  insert_sorted x [] = x ∷ []
  insert_sorted x (y ∷ ys) =
      let further = y ∷ insert_sorted x ys in elim (cmp x y) [ gt ↦ further | _ ↦ x ∷ y ∷ ys ]

  unfoldable pub sort_by : List A → List A
  unfolding insert_sorted
  sort_by [] = []
  sort_by (x ∷ xs) = insert_sorted x (sort_by xs)

  Within-insert_sorted :
      (a x : A) (ys : List A) → Within a (insert_sorted x ys) → (x ≡ a) ⊎ Within a ys
  unfolding insert_sorted
  Within-insert_sorted a x [] (inl e) = inl e
  Within-insert_sorted a x [] (inr w) = absurd w
  Within-insert_sorted a x (y ∷ ys) h = by_order (cmp x y) (Within-insert_sorted a x ys) h
    where
      by_order :
          (o : Ordering)
          → (Within a (insert_sorted x ys) → (x ≡ a) ⊎ Within a ys)
          → Within a (elim o [ gt ↦ y ∷ insert_sorted x ys | _ ↦ x ∷ y ∷ ys ])
          → (x ≡ a) ⊎ Within a (y ∷ ys)
      by_order gt ih (inl e) = inr (inl e)
      by_order gt ih (inr w) = elim (ih w) [ inl e ↦ inl e | inr v ↦ inr (inr v) ]
      by_order lt ih w = w
      by_order eq ih w = w

  -- sorting brings in nothing new
  pub Within-sort_by : (a : A) (xs : List A) → Within a (sort_by xs) → Within a xs
  unfolding sort_by
  Within-sort_by a [] h = h
  Within-sort_by a (x ∷ xs) h = elim (Within-insert_sorted a x (sort_by xs) h) [
    | inl e ↦ inl e
    | inr w ↦ inr (Within-sort_by a xs w)
  ]

  insert_sorted-Within_head : (x : A) (ys : List A) → Within x (insert_sorted x ys)
  unfolding insert_sorted
  insert_sorted-Within_head x [] = inl refl
  insert_sorted-Within_head x (y ∷ ys) = by_order (cmp x y) (insert_sorted-Within_head x ys)
    where
      by_order :
          (o : Ordering)
          → Within x (insert_sorted x ys)
          → Within x (elim o [ gt ↦ y ∷ insert_sorted x ys | _ ↦ x ∷ y ∷ ys ])
      by_order gt ih = inr ih
      by_order lt ih = inl refl
      by_order eq ih = inl refl

  insert_sorted-Within_tail : (a x : A) (ys : List A) → Within a ys → Within a (insert_sorted x ys)
  unfolding insert_sorted
  insert_sorted-Within_tail a x [] h = absurd h
  insert_sorted-Within_tail a x (y ∷ ys) h = by_order (cmp x y) h (insert_sorted-Within_tail a x ys)
    where
      by_order :
          (o : Ordering)
          → Within a (y ∷ ys)
          → (Within a ys → Within a (insert_sorted x ys))
          → Within a (elim o [ gt ↦ y ∷ insert_sorted x ys | _ ↦ x ∷ y ∷ ys ])
      by_order gt (inl e) ih = inl e
      by_order gt (inr w) ih = inr (ih w)
      by_order lt w ih = inr w
      by_order eq w ih = inr w

  -- and loses nothing
  pub sort_by-Within : (a : A) (xs : List A) → Within a xs → Within a (sort_by xs)
  unfolding sort_by
  sort_by-Within a [] h = h
  sort_by-Within a (x ∷ xs) (inl e) =
      subst (λ y. Within y (insert_sorted x (sort_by xs))) e
        (insert_sorted-Within_head x (sort_by xs))
  sort_by-Within a (x ∷ xs) (inr w) =
      insert_sorted-Within_tail a x (sort_by xs) (sort_by-Within a xs w)

module _ {A : Type 0} ⦃e : Equal A⦄ where
  drop_repeat : A → List A → List A
  drop_repeat x [] = x ∷ []
  drop_repeat x (y ∷ ys) = elim (x == y) [ true ↦ y ∷ ys | false ↦ x ∷ y ∷ ys ]

  -- each run of equal elements becomes one
  unfoldable pub dedup : List A → List A
  unfolding drop_repeat
  dedup [] = []
  dedup (x ∷ xs) = drop_repeat x (dedup xs)

  -- `windows(2).any(|pair| pair[0] == pair[1])`
  unfoldable pub has_repeat : List A → Bool
  has_repeat (x ∷ y ∷ rest) = (x == y) || has_repeat (y ∷ rest)
  has_repeat _ = false

  drop_repeat-Within_head : (x : A) (ys : List A) → Within x (drop_repeat x ys)
  unfolding drop_repeat
  drop_repeat-Within_head x [] = inl refl
  drop_repeat-Within_head x (y ∷ ys) = by_test (x == y) refl
    where
      by_test : (b : Bool) → (x == y) ≡ b → Within x (elim b [ true ↦ y ∷ ys | false ↦ x ∷ y ∷ ys ])
      by_test true p = inl (sym ((==_iff x y).0 p))
      by_test false p = inl refl

  drop_repeat-Within_tail : (a x : A) (ys : List A) → Within a ys → Within a (drop_repeat x ys)
  unfolding drop_repeat
  drop_repeat-Within_tail a x [] h = absurd h
  drop_repeat-Within_tail a x (y ∷ ys) h = by_test (x == y)
    where
      by_test : (b : Bool) → Within a (elim b [ true ↦ y ∷ ys | false ↦ x ∷ y ∷ ys ])
      by_test true = h
      by_test false = inr h

  pub dedup-Within : (a : A) (xs : List A) → Within a xs → Within a (dedup xs)
  unfolding dedup
  dedup-Within a [] h = h
  dedup-Within a (x ∷ xs) (inl e) =
      subst (λ y. Within y (drop_repeat x (dedup xs))) e (drop_repeat-Within_head x (dedup xs))
  dedup-Within a (x ∷ xs) (inr w) = drop_repeat-Within_tail a x (dedup xs) (dedup-Within a xs w)
