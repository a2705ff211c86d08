-- ===== src/Base/Tables.antt =====
-- A Boolean test of every number below a bound, decided by evaluation.
use Prim.Native.Nat.{ℕ, zero, suc, ◌+◌, ◌≤◌, ◌<◌}
use mathlib.Core.Path.{◌≡◌, ap, ◌∙◌, sym}
use mathlib.Core.Bool.{Bool, true, ◌&&◌}
use native.Mathlib.Omega.{arith}
use native.Mathlib.Decide.{ℕ_discrete}

-- from a first value on, so many values
unfoldable pub holds_from : (ℕ → Bool) → ℕ → ℕ → Bool
holds_from test first zero = true
holds_from test first (suc count) = test first && holds_from test (first + 1) count

holds_from_lem :
    (test : ℕ → Bool) (count first value : ℕ)
    → holds_from test first count ≡ true
    → first ≤ value
    → value < first + count
    → test value ≡ true
unfolding holds_from
holds_from_lem test zero first value checked low high = absurd (omega arith)
holds_from_lem test (suc count) first value checked low high = elim (ℕ_discrete first value) [
  | yes here ↦ ap test (sym here) ∙ (ground arith)
  | no beyond ↦
      let later : first + 1 ≤ value = omega arith in
      let inside : value < first + 1 + count = omega arith in
      let others : holds_from test (first + 1) count ≡ true = ground arith in
      holds_from_lem test count (first + 1) value others later inside
]

abbrev pub holds_below : ℕ → (ℕ → Bool) → Bool
holds_below limit test = holds_from test 0 limit

pub holds_below_lem :
    (limit : ℕ) (test : ℕ → Bool) (value : ℕ)
    → holds_below limit test ≡ true
    → value < limit
    → test value ≡ true
holds_below_lem limit test value checked high =
    holds_from_lem test limit 0 value checked (omega arith) (omega arith)
