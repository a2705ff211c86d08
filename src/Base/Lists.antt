-- ===== src/Base/Lists.antt =====
-- Lists measured and indexed by native numbers, under the library's names.
use Prim.Native.Nat.{ℕ, zero, suc, ◌+◌, ◌-◌, ◌≤◌, min}
use mathlib.Core.Path.{◌≡◌, refl, ap, ◌∙◌, sym, subst}
use mathlib.Core.Logic.{◌⊎◌, inl, inr}
use mathlib.Core.Bool.{Bool, true, false, ◌&&◌, ◌||◌}
use mathlib.Core.List.{map, List, [], ◌∷◌, ◌++◌}
use mathlib.Core.Option.{Option, none, some}
use native.Mathlib.Omega.{arith}

module _ {ℓ} {A : Type ℓ} where
  abbrev pub length : List A → ℕ
  length [] = 0
  length (x ∷ xs) = suc (length xs)

  abbrev pub get_elem? : List A → ℕ → Option A
  get_elem? [] i = none
  get_elem? (x ∷ xs) zero = some x
  get_elem? (x ∷ xs) (suc i) = get_elem? xs i

  abbrev pub get_or : List A → ℕ → A → A
  get_or [] i d = d
  get_or (x ∷ xs) zero d = x
  get_or (x ∷ xs) (suc i) d = get_or xs i d

  abbrev pub take : ℕ → List A → List A
  take zero xs = []
  take (suc n) [] = []
  take (suc n) (x ∷ xs) = x ∷ take n xs

  abbrev pub drop : ℕ → List A → List A
  drop zero xs = xs
  drop (suc n) [] = []
  drop (suc n) (x ∷ xs) = drop n xs

  abbrev pub replicate : ℕ → A → List A
  replicate zero a = []
  replicate (suc n) a = a ∷ replicate n a

  abbrev pub any : (A → Bool) → List A → Bool
  any p [] = false
  any p (x ∷ xs) = p x || any p xs

  abbrev pub all : (A → Bool) → List A → Bool
  all p [] = true
  all p (x ∷ xs) = p x && all p xs

  -- The elements that pass a test.
  unfoldable pub filter : (A → Bool) → List A → List A
  filter p [] = []
  filter p (x ∷ xs) = let rest = filter p xs in elim (p x) [ true ↦ x ∷ rest | false ↦ rest ]

  -- A predicate at every element.
  abbrev pub All {κ} : (A → Type κ) → List A → Type κ
  All P [] = Unit
  All P (x ∷ xs) = P x × All P xs

module _ {ℓ} {A : Type ℓ} where
  pub length-append : (xs ys : List A) → length (xs ++ ys) ≡ length xs + length ys
  length-append [] ys = omega arith
  length-append (x ∷ xs) ys = omega (arith, length-append xs ys)

  pub take-append-drop : (n : ℕ) (xs : List A) → take n xs ++ drop n xs ≡ xs
  take-append-drop zero xs = refl
  take-append-drop (suc n) [] = refl
  take-append-drop (suc n) (x ∷ xs) = rw (take-append-drop n xs)

  pub length-take : (n : ℕ) (xs : List A) → length (take n xs) ≡ min n (length xs)
  length-take zero xs = omega arith
  length-take (suc n) [] = omega arith
  length-take (suc n) (x ∷ xs) = omega (arith, length-take n xs)

  pub length-drop : (n : ℕ) (xs : List A) → length (drop n xs) ≡ length xs - n
  length-drop zero xs = omega arith
  length-drop (suc n) [] = omega arith
  length-drop (suc n) (x ∷ xs) = omega (arith, length-drop n xs)

  pub length-replicate : (n : ℕ) (a : A) → length (replicate n a) ≡ n
  length-replicate zero a = refl
  length-replicate (suc n) a = ap suc (length-replicate n a)

  pub take_all : (n : ℕ) (xs : List A) → length xs ≤ n → take n xs ≡ xs
  take_all zero [] h = refl
  take_all zero (x ∷ xs) h = absurd (omega arith)
  take_all (suc n) [] h = refl
  take_all (suc n) (x ∷ xs) h = ap (λ t. x ∷ t) (take_all n xs (omega arith))

  pub drop_all : (n : ℕ) (xs : List A) → length xs ≤ n → drop n xs ≡ []
  drop_all zero [] h = refl
  drop_all zero (x ∷ xs) h = absurd (omega arith)
  drop_all (suc n) [] h = refl
  drop_all (suc n) (x ∷ xs) h = drop_all n xs (omega arith)

  -- the first `length xs` elements of `xs ++ ys`
  pub take-length-append : (n : ℕ) (xs ys : List A) → n ≡ length xs → take n (xs ++ ys) ≡ xs
  take-length-append zero [] ys h = refl
  take-length-append zero (x ∷ xs) ys h = absurd (omega arith)
  take-length-append (suc n) [] ys h = absurd (omega arith)
  take-length-append (suc n) (x ∷ xs) ys h =
      ap (λ t. x ∷ t) (take-length-append n xs ys (omega arith))

  pub drop-length-append : (n : ℕ) (xs ys : List A) → n ≡ length xs → drop n (xs ++ ys) ≡ ys
  drop-length-append zero [] ys h = refl
  drop-length-append zero (x ∷ xs) ys h = absurd (omega arith)
  drop-length-append (suc n) [] ys h = absurd (omega arith)
  drop-length-append (suc n) (x ∷ xs) ys h = drop-length-append n xs ys (omega arith)

  pub All-append {κ} : (P : A → Type κ) (xs ys : List A) → All P xs → All P ys → All P (xs ++ ys)
  All-append P [] ys p q = q
  All-append P (x ∷ xs) ys p q = (p.0, All-append P xs ys p.1 q)

  pub All-append_right {κ} : (P : A → Type κ) (xs ys : List A) → All P (xs ++ ys) → All P ys
  All-append_right P [] ys h = h
  All-append_right P (x ∷ xs) ys h = All-append_right P xs ys h.1

  pub All-imp {κ μ} :
      {P : A → Type κ} {Q : A → Type μ}
      → ((x : A) → P x → Q x)
      → (xs : List A) → All P xs
      → All Q xs
  All-imp f [] p = tt
  All-imp f (x ∷ xs) p = (f x p.0, All-imp f xs p.1)

  pub All-take {κ} : (P : A → Type κ) (n : ℕ) (xs : List A) → All P xs → All P (take n xs)
  All-take P zero xs p = tt
  All-take P (suc n) [] p = tt
  All-take P (suc n) (x ∷ xs) p = (p.0, All-take P n xs p.1)

  pub All-drop {κ} : (P : A → Type κ) (n : ℕ) (xs : List A) → All P xs → All P (drop n xs)
  All-drop P zero xs p = p
  All-drop P (suc n) [] p = tt
  All-drop P (suc n) (x ∷ xs) p = All-drop P n xs p.1

module _ {A : Type 0} where
  -- Membership that a case split can open.
  abbrev pub Within : A → List A → Type 0
  Within a [] = ⊥
  Within a (x ∷ xs) = (x ≡ a) ⊎ Within a xs

  pub Within-append_left : (a : A) (xs ys : List A) → Within a xs → Within a (xs ++ ys)
  Within-append_left a [] ys h = absurd h
  Within-append_left a (x ∷ xs) ys (inl e) = inl e
  Within-append_left a (x ∷ xs) ys (inr h) = inr (Within-append_left a xs ys h)

  pub Within-append_right : (a : A) (xs ys : List A) → Within a ys → Within a (xs ++ ys)
  Within-append_right a [] ys h = h
  Within-append_right a (x ∷ xs) ys h = inr (Within-append_right a xs ys h)

  pub Within-append_cases :
      (a : A) (xs ys : List A) → Within a (xs ++ ys) → Within a xs ⊎ Within a ys
  Within-append_cases a [] ys h = inr h
  Within-append_cases a (x ∷ xs) ys (inl e) = inl (inl e)
  Within-append_cases a (x ∷ xs) ys (inr h) = elim (Within-append_cases a xs ys h) [
    | inl l ↦ inl (inr l)
    | inr r ↦ inr r
  ]

  pub All-Within : (P : A → Type 0) (xs : List A) → All P xs → (a : A) → Within a xs → P a
  All-Within P [] h a w = absurd w
  All-Within P (x ∷ xs) h a (inl e) = subst P e h.0
  All-Within P (x ∷ xs) h a (inr w) = All-Within P xs h.1 a w

  pub Within-filter :
      (p : A → Bool) (xs : List A) (a : A) → Within a (filter p xs) → (p a ≡ true) × Within a xs
  unfolding filter
  Within-filter p [] a h = absurd h
  Within-filter p (x ∷ xs) a h = by_test (p x) refl (λ w. Within-filter p xs a w) h
    where
      by_test :
          (b : Bool)
          → p x ≡ b
          → (Within a (filter p xs) → (p a ≡ true) × Within a xs)
          → Within a (elim b [ true ↦ x ∷ filter p xs | false ↦ filter p xs ])
          → (p a ≡ true) × Within a (x ∷ xs)
      by_test true e ih (inl same) = (ap p (sym same) ∙ e, inl same)
      by_test true e ih (inr w) = ((ih w).0, inr (ih w).1)
      by_test false e ih w = ((ih w).0, inr (ih w).1)

  pub Within-filter_inverse :
      (p : A → Bool) (xs : List A) (a : A) → p a ≡ true → Within a xs → Within a (filter p xs)
  unfolding filter
  Within-filter_inverse p [] a h w = absurd w
  Within-filter_inverse p (x ∷ xs) a h (inl e) = by_test (p x) (ap p e ∙ h)
    where
      by_test :
          (b : Bool) → b ≡ true → Within a (elim b [ true ↦ x ∷ filter p xs | false ↦ filter p xs ])
      by_test true t = inl e
      by_test false t = cc
  Within-filter_inverse p (x ∷ xs) a h (inr w) = by_test (p x) (Within-filter_inverse p xs a h w)
    where
      by_test :
          (b : Bool)
          → Within a (filter p xs)
          → Within a (elim b [ true ↦ x ∷ filter p xs | false ↦ filter p xs ])
      by_test true v = inr v
      by_test false v = v

-- membership in a list that is mapped
pub Within-map :
    {A B : Type 0} (f : A → B) (a : A) (xs : List A) → Within a xs → Within (f a) (map f xs)
Within-map f a [] w = absurd w
Within-map f a (x ∷ xs) (inl e) = inl (ap f e)
Within-map f a (x ∷ xs) (inr w) = inr (Within-map f a xs w)

pub Within-map_inverse :
    {A B : Type 0} (f : A → B) (b : B) (xs : List A)
    → Within b (map f xs)
    → (a : A) × Within a xs × (f a ≡ b)
Within-map_inverse f b [] w = absurd w
Within-map_inverse f b (x ∷ xs) (inl e) = (x, inl refl, e)
Within-map_inverse f b (x ∷ xs) (inr w) =
    let (a, v, e) = Within-map_inverse f b xs w in (a, inr v, e)
