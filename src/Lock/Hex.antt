-- ===== src/Lock/Hex.antt =====
-- The hexadecimal text tokens of rust/crates/leanbun-lock/src/lock_v1.rs.
use Prim.Native.Nat.{bit_or}
use leanbun.Base.{
  ℕ, ◌+◌, ◌-◌, ◌*◌, ◌/◌, ◌%◌, ◌<◌, Bool, true, not, ◌&&◌, ◌||◌, [], ◌∷◌, length, all, All, get_or,
  leb, eqb, if◌then◌else◌, ok, ◌>>◌, reject_if, ◌≡◌, refl, holds_from, holds_below, holds_below_lem,
  arith,
}
use leanbun.Codec.Text.{is_utf8}
use leanbun.Core.Identity.{hex_digits}
use leanbun.Lock.Model.{Text, LockErrorKind}
use leanbun.Lock.Fields.{Made}

-- the bytes of a Rust string
pub record IsString (text : Text) : Type 0 where
  pub bytes : All (λ b. b < 256) text
  pub valid : is_utf8 text ≡ true

unfoldable pub hex : Text → Text
hex [] = []
hex (b ∷ rest) = get_or hex_digits (b / 16) 0 ∷ get_or hex_digits (b % 16) 0 ∷ hex rest

-- the closure `nibble`
unfoldable pub nibble : ℕ → ℕ
nibble b = if leb b b'9' then b - b'0' else b - b'a' + 10

-- `(nibble(pair[0]) << 4) | nibble(pair[1])` on u8
unfoldable pub join_pair : ℕ → ℕ → ℕ
unfolding nibble
join_pair a b = bit_or ((nibble a * 16) % 256) (nibble b)

-- the loop over `chunks_exact(2)`
unfoldable pub join_pairs : Text → Text
unfolding join_pair
join_pairs (a ∷ b ∷ rest) = join_pair a b ∷ join_pairs rest
join_pairs _ = []

abbrev pub is_lower_hex : ℕ → Bool
is_lower_hex b = leb b'0' b && leb b b'9' || leb b'a' b && leb b b'f'

unfoldable pub unhex : Text → Made Text
unfolding join_pairs is_utf8
unhex value =
    reject_if (not (eqb (length value % 2) 0) || not (all is_lower_hex value))
      LockErrorKind.non_canonical_text
    >> reject_if (not (is_utf8 (join_pairs value))) LockErrorKind.non_canonical_text
    >> ok (join_pairs value)

digit_table :
    holds_below 256 (λ b.
      is_lower_hex (get_or hex_digits (b / 16) 0)
      && is_lower_hex (get_or hex_digits (b % 16) 0)
      && eqb (join_pair (get_or hex_digits (b / 16) 0) (get_or hex_digits (b % 16) 0)) b)
    ≡ true
unfolding holds_from join_pair
digit_table = refl

-- what the two digits of a byte are
record Digits (b hi lo : ℕ) : Type 0 where
  high : is_lower_hex hi ≡ true
  low : is_lower_hex lo ≡ true
  joined : join_pair hi lo ≡ b

digits_lem :
    (b : ℕ) → b < 256 → Digits b (get_or hex_digits (b / 16) 0) (get_or hex_digits (b % 16) 0)
digits_lem b h =
    parts (is_lower_hex (get_or hex_digits (b / 16) 0))
      (is_lower_hex (get_or hex_digits (b % 16) 0))
      (join_pair (get_or hex_digits (b / 16) 0) (get_or hex_digits (b % 16) 0))
      (λ p q r. record { high = p; low = q; joined = r }) (holds_below_lem 256 _ b digit_table h)
  where
    parts :
        {P : Type 0} (p q : Bool) (x : ℕ)
        → (p ≡ true → q ≡ true → x ≡ b → P)
        → (p && q && eqb x b) ≡ true
        → P
    parts p q x k t = k (ground arith) (ground arith) (ground arith)

hex_shape :
    (text : Text)
    → All (λ b. b < 256) text
    → (length (hex text) ≡ 2 * length text)
      × (all is_lower_hex (hex text) ≡ true)
      × (join_pairs (hex text) ≡ text)
unfolding hex join_pairs
hex_shape [] h = (refl, refl, refl)
hex_shape (b ∷ rest) h =
    let (len, low, same) = hex_shape rest h.1 in
    let d = digits_lem b h.0 in
    (omega (arith, len), rw (d.high, d.low) low, rw (d.joined, same) refl)

-- The text token of every string is read back as that string.
pub unhex-hex : (text : Text) → IsString text → unhex (hex text) ≡ ok text
unfolding unhex
unhex-hex text h =
    let (len, low, same) = hex_shape text h.bytes in
    let even : length (hex text) % 2 ≡ 0 = omega (arith, len) in rw (even, low, same, h.valid) refl

-- a printable byte: no tab, no line feed, no carriage return
abbrev pub IsToken : Text → Type 0
IsToken text = All (λ b. 32 < b) text

lower-IsToken : (text : Text) → all is_lower_hex text ≡ true → IsToken text
lower-IsToken [] h = tt
lower-IsToken (b ∷ rest) h = (ground arith, lower-IsToken rest (ground arith))

pub hex-IsToken : (text : Text) → All (λ b. b < 256) text → IsToken (hex text)
hex-IsToken text h = lower-IsToken (hex text) (hex_shape text h).1

pub hex_even : (text : Text) → All (λ b. b < 256) text → length (hex text) ≡ 2 * length text
hex_even text h = (hex_shape text h).0
