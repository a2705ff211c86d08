-- ===== src/Base/Decimal.antt =====
-- Decimal numbers: `Display` and `FromStr` of an unsigned integer.
use Prim.Native.Nat.{ℕ, zero, suc, ◌+◌, ◌-◌, ◌*◌, ◌/◌, ◌%◌, ◌≤◌, ◌<◌}
use mathlib.Core.Path.{◌≡◌, refl, ap}
use mathlib.Core.Logic.{inl, inr, ◌⊎◌}
use mathlib.Core.Bool.{Bool, true, false, ◌&&◌}
use mathlib.Core.List.{List, [], ◌∷◌, ◌++◌}
use native.Mathlib.Omega.{arith}
use leanbun.Base.Lists.{length, all}
use leanbun.Base.Tests.{ltb, leb, eqb, if◌then◌else◌, Bool-cases, ltb→lt}

-- the digits of a number; a number has fewer digits than its successor
digits : ℕ → ℕ → List ℕ
digits zero n = []
digits (suc fuel) n =
    let high = digits fuel (n / 10) in
    if ltb n 10 then (n + b'0') ∷ [] else high ++ (n % 10 + b'0') ∷ []

unfoldable pub display_nat : ℕ → List ℕ
unfolding digits
display_nat n = digits (suc n) n

-- the value of the digits read so far, and of those that follow
unfoldable pub value_from : ℕ → List ℕ → ℕ
value_from n [] = n
value_from n (d ∷ ds) = value_from (n * 10 + (d - b'0')) ds

abbrev pub is_digit : ℕ → Bool
is_digit b = leb b'0' b && leb b b'9'

abbrev IsDigit : ℕ → Type 0
IsDigit b = (b'0' ≤ b) × (b ≤ b'9')

value_from-append :
    (n : ℕ) (ds : List ℕ) (d : ℕ) → value_from n (ds ++ d ∷ []) ≡ value_from n ds * 10 + (d - b'0')
unfolding value_from
value_from-append n [] d = refl
value_from-append n (e ∷ ds) d = value_from-append (n * 10 + (e - b'0')) ds d

all_digits-append :
    (ds es : List ℕ)
    → all is_digit ds ≡ true
    → all is_digit es ≡ true
    → all is_digit (ds ++ es) ≡ true
all_digits-append [] es h k = k
all_digits-append (d ∷ ds) es h k = ground (arith, all_digits-append ds es)

-- what holds of printed digits
record Printed (n : ℕ) (ds : List ℕ) : Type 0 where
  value : value_from 0 ds ≡ n
  shape : all is_digit ds ≡ true
  first :
      (n < 10) × (ds ≡ (n + b'0') ∷ []) ⊎ ((d : ℕ) × (rest : List ℕ) × (ds ≡ d ∷ rest) × (b'0' < d))

one_digit : (n : ℕ) → n < 10 → Printed n ((n + b'0') ∷ [])
unfolding value_from
one_digit n h = record { value = omega arith; shape = ground arith; first = inl (h, refl) }

-- a further digit, after the digits of a number that is not zero
another_digit :
    (n : ℕ) (ds : List ℕ) → 10 ≤ n → Printed (n / 10) ds → Printed n (ds ++ (n % 10 + b'0') ∷ [])
unfolding value_from
another_digit n ds h p = record {
  value = omega (arith, value_from-append 0 ds (n % 10 + b'0'), p.value);
  shape = all_digits-append ds _ p.shape (ground arith);
  first = inr (head_of p.first);
}
  where
    head_of :
        ((n / 10 < 10) × (ds ≡ (n / 10 + b'0') ∷ []))
          ⊎ ((d : ℕ) × (rest : List ℕ) × (ds ≡ d ∷ rest) × (b'0' < d))
        → (d : ℕ) × (rest : List ℕ) × (ds ++ (n % 10 + b'0') ∷ [] ≡ d ∷ rest) × (b'0' < d)
    head_of (inl (small, e)) =
        (n / 10 + b'0', (n % 10 + b'0') ∷ [], ap (λ t. t ++ (n % 10 + b'0') ∷ []) e, omega arith)
    head_of (inr (d, rest, e, big)) =
        (d, rest ++ (n % 10 + b'0') ∷ [], ap (λ t. t ++ (n % 10 + b'0') ∷ []) e, big)

digits-Printed : (fuel n : ℕ) → n < fuel → Printed n (digits fuel n)
unfolding digits
digits-Printed zero n h = absurd (omega arith)
digits-Printed (suc fuel) n h = elim (Bool-cases (ltb n 10)) [
  | inl small ↦ rw small (one_digit n (ltb→lt _ _ small))
  | inr large ↦
      let big : 10 ≤ n = ground arith in
      rw large
        (another_digit n (digits fuel (n / 10)) big (digits-Printed fuel (n / 10) (omega arith)))
]

-- a zero that is not the only digit
unfoldable pub has_leading_zero : List ℕ → Bool
has_leading_zero [] = false
has_leading_zero (d ∷ ds) = ltb 1 (length (d ∷ ds)) && eqb d b'0'

pub display_nat_lem :
    (n : ℕ)
    → (value_from 0 (display_nat n) ≡ n)
      × (all is_digit (display_nat n) ≡ true)
      × (has_leading_zero (display_nat n) ≡ false)
      × (0 < length (display_nat n))
unfolding display_nat has_leading_zero
display_nat_lem n =
    let p = digits-Printed (suc n) n (omega arith) in
    (p.value, p.shape, (leading p.first).0, (leading p.first).1)
  where
    leading :
        ((n < 10) × (digits (suc n) n ≡ (n + b'0') ∷ []))
          ⊎ ((d : ℕ) × (rest : List ℕ) × (digits (suc n) n ≡ d ∷ rest) × (b'0' < d))
        → (has_leading_zero (digits (suc n) n) ≡ false) × (0 < length (digits (suc n) n))
    leading (inl (small, e)) = rw e (ground arith)
    leading (inr (d, rest, e, big)) = rw e (ground arith, omega arith)
