-- ===== src/Codec/Text.antt =====
-- What the parser uses of Rust's text: UTF-8 validity, the encoding of a scalar, byte classes.
use leanbun.Base.{
  ℕ, ◌+◌, ◌-◌, ◌/◌, ◌%◌, Bool, false, ◌&&◌, ◌||◌, Option, none, some, List, [], ◌∷◌, ltb, leb, eqb,
  if◌then◌else◌,
}

abbrev pub between : ℕ → ℕ → ℕ → Bool
between lo hi b = leb lo b && leb b hi

abbrev pub is_whitespace : ℕ → Bool
is_whitespace b = eqb b b' ' || eqb b 10 || eqb b 13 || eqb b 9

abbrev pub is_digit : ℕ → Bool
is_digit b = between b'0' b'9' b

-- The bytes that a sequence still needs, and the range of the next one.
pub record Pending : Type 0 where
  pub needed : ℕ
  pub low : ℕ
  pub high : ℕ

abbrev pub pending : ℕ → ℕ → ℕ → Option Pending
pending n lo hi = some (record { needed = n; low = lo; high = hi })

-- the first byte of a sequence
lead : ℕ → Option Pending
lead b =
    if ltb b 0x80
    then pending 0 0 0
    else if between 0xc2 0xdf b
    then pending 1 0x80 0xbf
    else if eqb b 0xe0
    then pending 2 0xa0 0xbf
    else if eqb b 0xed
    then pending 2 0x80 0x9f
    else if between 0xe1 0xef b
    then pending 2 0x80 0xbf
    else if eqb b 0xf0
    then pending 3 0x90 0xbf
    else if between 0xf1 0xf3 b
    then pending 3 0x80 0xbf
    else if eqb b 0xf4
    then pending 3 0x80 0x8f
    else none

next_state : Pending → ℕ → Option Pending
unfolding lead
next_state s b =
    if eqb s.needed 0
    then lead b
    else if between s.low s.high b
    then pending (s.needed - 1) 0x80 0xbf
    else none

utf8_from : Option Pending → List ℕ → Bool
unfolding next_state
utf8_from none bytes = false
utf8_from (some s) [] = eqb s.needed 0
utf8_from (some s) (b ∷ bytes) = utf8_from (next_state s b) bytes

-- `String::from_utf8(..).is_ok()`
unfoldable pub is_utf8 : List ℕ → Bool
unfolding utf8_from
is_utf8 bytes = utf8_from (pending 0 0 0) bytes

-- `char::from_u32`
unfoldable pub is_scalar : ℕ → Bool
is_scalar c = ltb c 0xd800 || between 0xe000 0x10ffff c

-- `char::encode_utf8`
unfoldable pub encode_utf8 : ℕ → List ℕ
encode_utf8 c =
    if ltb c 0x80
    then c ∷ []
    else if ltb c 0x800
    then (0xc0 + c / 64) ∷ (0x80 + c % 64) ∷ []
    else if ltb c 0x10000
    then (0xe0 + c / 4096) ∷ (0x80 + c / 64 % 64) ∷ (0x80 + c % 64) ∷ []
    else (0xf0 + c / 262144) ∷ (0x80 + c / 4096 % 64) ∷ (0x80 + c / 64 % 64) ∷ (0x80 + c % 64) ∷ []

-- the digit of `hex_quad`
unfoldable pub hex_digit : ℕ → Option ℕ
hex_digit b =
    if is_digit b
    then some (b - b'0')
    else if between b'a' b'f' b
    then some (b - b'a' + 10)
    else if between b'A' b'F' b
    then some (b - b'A' + 10)
    else none
