-- ===== src/Base/Results.antt =====
-- `Result<A, E>` with `?` as bind.
use mathlib.Core.Path.{◌≡◌, refl}
use mathlib.Core.Bool.{Bool, true, false}

pub data Result {ℓ} (E : Type 0) (A : Type ℓ) : Type ℓ where
  ok : A → Result E A
  err : E → Result E A

infixl 5 ◌>>=◌ ◌>>◌
abbrev pub ◌>>=◌ {ℓ κ} :
    {E : Type 0} {A : Type ℓ} {B : Type κ} → Result E A → (A → Result E B) → Result E B
err failure >>= next = err failure
ok value >>= next = next value

abbrev pub ◌>>◌ {ℓ} : {E : Type 0} {B : Type ℓ} → Result E (Unit {0}) → Result E B → Result E B
m >> k = m >>= λ _. k

-- `if test { return Err(e) }`
abbrev pub reject_if : {E : Type 0} → Bool → E → Result E (Unit {0})
reject_if true e = err e
reject_if false e = ok tt

-- a chain that succeeds has a first step that does
pub >>=-eq-ok {ℓ κ} :
    {E : Type 0} {Step : Type ℓ} {Made : Type κ} (first : Result E Step)
    (next : Step → Result E Made) {made : Made}
    → (first >>= next) ≡ ok made
    → (step : Step) × (first ≡ ok step) × (next step ≡ ok made)
>>=-eq-ok (ok step) next chain = (step, refl, chain)
>>=-eq-ok (err failure) next chain = cc

pub reject_if-eq-ok :
    {E : Type 0} (t : Bool) (e : E) {u : Unit {0}} → reject_if t e ≡ ok u → t ≡ false
reject_if-eq-ok true e h = cc
reject_if-eq-ok false e h = refl
