-- ===== src/Base/Membership.antt =====
-- Membership as a test, and lists that have the same members.
use Prim.Native.Nat.Ordering.{lt}
use mathlib.Core.Path.{◌≡◌, refl, sym, ◌∙◌, subst}
use mathlib.Core.Logic.{◌≢◌, inl, inr}
use mathlib.Core.Bool.{Bool, true, false, not, ◌||◌}
use mathlib.Core.List.{List, [], ◌∷◌, map}
use native.Mathlib.Omega.{arith}
use leanbun.Base.Lists.{Within, All-Within, any}
use leanbun.Base.Tests.{Bool-cases}
use leanbun.Base.Order.{Ord}
use leanbun.Base.Equality.{Equal, ◌==◌, ==_iff}
use leanbun.Base.Ascending.{Ascends, Ascends-below, Ascends-tail}

module _ {A : Type 0} ⦃e : Equal A⦄ where
  -- `contains`
  abbrev pub is_member : A → List A → Bool
  is_member a xs = any (λ x. x == a) xs

  -- `xs.difference(&ys).next().is_some()`
  abbrev pub has_difference : List A → List A → Bool
  has_difference xs ys = any (λ x. not (is_member x ys)) xs

  pub is_member-Within : (a : A) (xs : List A) → is_member a xs ≡ true → Within a xs
  is_member-Within a [] h = cc
  is_member-Within a (x ∷ xs) h = elim (Bool-cases (x == a)) [
    | inl same ↦ inl ((==_iff x a).0 same)
    | inr other ↦ inr (is_member-Within a xs (second (x == a) (is_member a xs) h other))
  ]
    where
      second : (p q : Bool) → (p || q) ≡ true → p ≡ false → q ≡ true
      second p q s t = ground arith

  pub has_difference-Within :
      (xs ys : List A) → has_difference xs ys ≡ false → (a : A) → Within a xs → Within a ys
  has_difference-Within [] ys h a w = absurd w
  has_difference-Within (x ∷ xs) ys h a w =
      let (here, further) = both (is_member x ys) (has_difference xs ys) h in
      elim w [
        | inl same ↦ subst (λ b. Within b ys) same (is_member-Within x ys here)
        | inr later ↦ has_difference-Within xs ys further a later
      ]
    where
      both : (p q : Bool) → (not p || q) ≡ false → (p ≡ true) × (q ≡ false)
      both p q s = (ground arith, ground arith)

pub Ascends-map :
    {A K : Type 0} ⦃o : Ord K⦄ (key : A → K) (xs : List A)
    → Ascends key xs
    → Ascends (λ (k : K). k) (map key xs)
Ascends-map key [] h = tt
Ascends-map key (x ∷ []) h = tt
Ascends-map key (x ∷ y ∷ rest) h = (h.0, Ascends-map key (y ∷ rest) h.1)

module _ {K : Type 0} ⦃o : Ord K⦄ where
  irreflexive : (a b : K) → a ≡ b → o.cmp a b ≢ lt
  irreflexive a b e h = cc (o.cmp_refl b)

  asymmetric : (a b : K) → o.cmp a b ≡ lt → o.cmp b a ≢ lt
  asymmetric a b h k = irreflexive a a refl (o.lt_trans a b a h k)

  below :
      (x : K) (xs : List K)
      → Ascends (λ (k : K). k) (x ∷ xs)
      → (a : K) → Within a xs
      → o.cmp x a ≡ lt
  below x xs h a w = All-Within (λ y. o.cmp x y ≡ lt) xs (Ascends-below (λ (k : K). k) x xs h) a w

  -- a member of the one list's tail is in the other's tail when the heads are the same
  tail_member :
      (x y a : K) (xs ys : List K)
      → x ≡ y
      → Ascends (λ (k : K). k) (x ∷ xs)
      → Within a (y ∷ ys)
      → Within a xs
      → Within a ys
  tail_member x y a xs ys same h (inl e) w = absurd (irreflexive x a (same ∙ e) (below x xs h a w))
  tail_member x y a xs ys same h (inr v) w = v

  same_head :
      (x y : K) (xs ys : List K)
      → Ascends (λ (k : K). k) (x ∷ xs)
      → Ascends (λ (k : K). k) (y ∷ ys)
      → Within x (y ∷ ys)
      → Within y (x ∷ xs)
      → x ≡ y
  same_head x y xs ys h k (inl e) w = sym e
  same_head x y xs ys h k (inr v) (inl e) = e
  same_head x y xs ys h k (inr v) (inr w) =
      absurd (asymmetric x y (below x xs h y w) (below y ys k x v))

  -- two strictly ascending lists with the same members are the same list
  pub Ascends-same :
      (xs ys : List K)
      → Ascends (λ (k : K). k) xs
      → Ascends (λ (k : K). k) ys
      → ((a : K) → Within a xs → Within a ys)
      → ((a : K) → Within a ys → Within a xs)
      → xs ≡ ys
  Ascends-same [] [] h k f g = refl
  Ascends-same [] (y ∷ ys) h k f g = absurd (g y (inl refl))
  Ascends-same (x ∷ xs) [] h k f g = absurd (f x (inl refl))
  Ascends-same (x ∷ xs) (y ∷ ys) h k f g =
      let same = same_head x y xs ys h k (f x (inl refl)) (g y (inl refl)) in
      let rest =
        Ascends-same xs ys (Ascends-tail (λ (k : K). k) x xs h) (Ascends-tail (λ (k : K). k) y ys k)
          (λ a w. tail_member x y a xs ys same h (f a (inr w)) w)
          (λ a w. tail_member y x a ys xs (sym same) k (g a (inr w)) w) in
      cc
