-- ===== src/Base/Equality.antt =====
-- `PartialEq` and its derived instances, as decisions.
use mathlib.Core.Path.{◌≡◌, refl}
use mathlib.Core.Bool.{Bool, true, false}
use mathlib.Core.Logic.{◌↔◌}
use mathlib.Core.List.{List}
use Prim.Native.Nat.{ℕ}
use native.Mathlib.Omega.{arith}
use native.Mathlib.Decide.{ℕ_discrete}

pub record Equal {ℓ} (A : Type ℓ) : Type ℓ where
  pub discrete : Discrete A

infix 50 ◌==◌
abbrev pub ◌==◌ {ℓ} : {A : Type ℓ} ⦃e : Equal A⦄ → A → A → Bool
◌==◌ ⦃e⦄ a b = elim (e.discrete a b) [ yes _ ↦ true | no _ ↦ false ]

pub ==_iff {ℓ} : {A : Type ℓ} ⦃e : Equal A⦄ (a b : A) → ((a == b) ≡ true) ↔ (a ≡ b)
==_iff a b = ground arith

pub ==_refl {ℓ} : {A : Type ℓ} ⦃e : Equal A⦄ (a : A) → (a == a) ≡ true
==_refl a = (==_iff a a).1 refl

list_discrete : Discrete (List ℕ)
list_discrete = hlevel ℕ_discrete

instance abbrev pub nat_equal : Equal ℕ
nat_equal = record { discrete = ℕ_discrete }

instance unfoldable pub bytes_equal : Equal (List ℕ)
unfolding list_discrete ℕ_discrete
bytes_equal = record { discrete = list_discrete }
