-- ===== src/Codec/Ensures.antt =====
-- Postconditions of the parser's actions: what holds of a result, and that no failure is the model's
-- own want of fuel.
use leanbun.Base.{
  ◌+◌, ◌≤◌, ◌<◌, ◌≡◌, ◌≢◌, refl, Bool, true, false, Result, ok, err, length, arith, if◌then◌else◌,
}
use leanbun.Codec.Json.{JsonError, out_of_fuel}
use leanbun.Codec.Parser.{Parser, Action, continue, ◌>>=◌}

pub data Ensures {A : Type 0} (P : A → Parser → Type 0)
    : Result JsonError (A × Parser) → Type 0 where
  holds : {a : A} {q : Parser} → P a q → Ensures P (ok (a, q))
  fails : {e : JsonError} → e.detail ≢ out_of_fuel → Ensures P (err e)

module _ {A : Type 0} {P : A → Parser → Type 0} where
  pub Ensures-imp :
      (Q : A → Parser → Type 0) {r : Result JsonError (A × Parser)}
      → Ensures P r
      → ((a : A) (q : Parser) → P a q → Ensures Q (ok (a, q)))
      → Ensures Q r
  Ensures-imp Q (holds {a} {q} h) f = f a q h
  Ensures-imp Q (fails n) f = fails n

  pub Ensures-bind :
      {B : Type 0} {Q : B → Parser → Type 0} (m : Action A) (f : A → Action B) (p : Parser)
      → Ensures P (m p)
      → ((a : A) (q : Parser) → P a q → Ensures Q (f a q))
      → Ensures Q ((m >>= f) p)
  unfolding ◌>>=◌
  Ensures-bind {B} {Q} m f p h k = through (m p) h
    where
      through : (r : Result JsonError (A × Parser)) → Ensures P r → Ensures Q (continue r f)
      through (ok (a, q)) (holds x) = k a q x
      through (err e) (fails n) = fails n

pub Ensures-if :
    {A : Type 0} {P : A → Parser → Type 0} (b : Bool) {x y : Result JsonError (A × Parser)}
    → (b ≡ true → Ensures P x)
    → (b ≡ false → Ensures P y)
    → Ensures P (if b then x else y)
Ensures-if true hx hy = hx refl
Ensures-if false hx hy = hy refl

pub Ensures-if_at :
    {A : Type 0} {P : A → Parser → Type 0} (b : Bool) (m n : Action A) (p : Parser)
    → (b ≡ true → Ensures P (m p))
    → (b ≡ false → Ensures P (n p))
    → Ensures P ((if b then m else n) p)
Ensures-if_at true m n p hx hy = hx refl
Ensures-if_at false m n p hx hy = hy refl

-- What every action does to the parser: it reads on, and keeps count of what it read.
pub record Progress (p q : Parser) : Type 0 where
  pub reads : length q.rest ≤ length p.rest
  pub accounted : q.position + length q.rest ≡ p.position + length p.rest

pub Progress-refl : (p : Parser) → Progress p p
Progress-refl p = record { reads = omega arith; accounted = refl }

pub Progress-trans : {p q r : Parser} → Progress p q → Progress q r → Progress p r
Progress-trans h k = omega arith

-- `q` lies behind `p`, with as many nodes.
pub record Reads (p q : Parser) : Type 0 where
  pub progress : Progress p q
  pub open progress use *
  pub same_nodes : q.nodes ≡ p.nodes

pub Reads-refl : (p : Parser) → Reads p p
Reads-refl p = record { progress = Progress-refl p; same_nodes = refl }

pub Reads-trans : {p q r : Parser} → Reads p q → Reads q r → Reads p r
Reads-trans h k = omega arith

-- and at least one byte was read
pub record Takes (p q : Parser) : Type 0 where
  pub reads_on : Reads p q
  pub open reads_on use *
  pub takes : length q.rest < length p.rest

pub Takes-Reads : {p q r : Parser} → Takes p q → Reads q r → Takes p r
Takes-Reads h k = omega arith

pub Reads-Takes : {p q r : Parser} → Reads p q → Takes q r → Takes p r
Reads-Takes h k = omega arith
