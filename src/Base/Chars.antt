-- ===== src/Base/Chars.antt =====
-- The bytes of an ASCII literal, and tests and parts of byte strings.
use Prim.Native.Nat.{ℕ, ◌-◌}
use Prim.Native.Char.{code}
use Prim.Native.String.{String}
use mathlib.Core.Bool.{Bool, true, false, ◌&&◌, ◌||◌}
use mathlib.Core.Option.{Option, none, some}
use mathlib.Core.List.{List, [], ◌∷◌, ◌++◌}
use mathlib.Core.Path.{◌≡◌, refl}
use native.Mathlib.Omega.{arith}
use leanbun.Base.Tests.{ltb, leb, eqb, eqb_iff, if◌then◌else◌}
use leanbun.Base.Lists.{length, drop, any}

abbrev pub bytes : String → List ℕ
bytes String.[] = []
bytes (String.◌∷◌ c s) = code c ∷ bytes s

-- `value.chars().any(char::is_control)` on UTF-8: the controls past ASCII are 0xc2 and a byte below 0xa0
unfoldable pub has_control : List ℕ → Bool
has_control [] = false
has_control (a ∷ []) = leb a 0x1f || eqb a 0x7f
has_control (a ∷ b ∷ rest) =
    leb a 0x1f || eqb a 0x7f || eqb a 0xc2 && ltb b 0xa0 || has_control (b ∷ rest)

-- `starts_with`
unfoldable pub starts_with : List ℕ → List ℕ → Bool
starts_with [] value = true
starts_with (p ∷ prefix) [] = false
starts_with (p ∷ prefix) (b ∷ value) = eqb b p && starts_with prefix value

-- `strip_prefix`
unfoldable pub strip_prefix : List ℕ → List ℕ → Option (List ℕ)
unfolding starts_with
strip_prefix prefix value =
    if starts_with prefix value then some (drop (length prefix) value) else none

-- `ends_with`, for a suffix that is not longer than the value
unfoldable pub ends_with : List ℕ → List ℕ → Bool
unfolding starts_with
ends_with suffix value =
    leb (length suffix) (length value)
    && starts_with suffix (drop (length value - length suffix) value)

-- the byte put before the first part of a pair
unfoldable pub extend_pair : ℕ → Option (List ℕ × List ℕ) → Option (List ℕ × List ℕ)
extend_pair b none = none
extend_pair b (some (left, right)) = some (b ∷ left, right)

-- `split_once`
unfoldable pub split_once : ℕ → List ℕ → Option (List ℕ × List ℕ)
unfolding extend_pair
split_once separator [] = none
split_once separator (b ∷ rest) =
    let further = extend_pair b (split_once separator rest) in
    if eqb b separator then some ([], rest) else further

-- `contains` of a byte
abbrev pub contains : ℕ → List ℕ → Bool
contains c value = any (λ b. eqb b c) value

pub starts_with-append :
    (prefix value : List ℕ)
    → starts_with prefix value ≡ true
    → prefix ++ drop (length prefix) value ≡ value
unfolding starts_with
starts_with-append [] value h = refl
starts_with-append (p ∷ prefix) [] h = cc
starts_with-append (p ∷ prefix) (b ∷ value) h =
    let (here, further) = both (eqb b p) (starts_with prefix value) h in
    let same : b ≡ p = (eqb_iff b p).0 here in cc (same, starts_with-append prefix value further)
  where
    both : (x y : Bool) → (x && y) ≡ true → (x ≡ true) × (y ≡ true)
    both x y t = (ground arith, ground arith)
