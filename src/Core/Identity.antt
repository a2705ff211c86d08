-- ===== src/Core/Identity.antt =====
-- rust/crates/leanbun-core/src/identity.rs. A `&str` is its list of bytes, but in
-- `valid_build_target`, which reads it by its Unicode scalars.
pub mod Digest
pub mod Target
use Prim.Native.Nat.{bit_or}
use leanbun.Base.{
  ℕ, zero, suc, ◌+◌, ◌-◌, ◌*◌, ◌/◌, ◌%◌, ◌≤◌, ◌<◌, Bool, true, false, not, ◌&&◌, ◌||◌, List, [],
  ◌∷◌, length, all, any, get_or, ltb, leb, eqb, if◌then◌else◌, Result, ok, err,
}

pub data ValidationError : Type 0 where
  sha256 : ValidationError
  execution_id : ValidationError
  build_target : ValidationError

abbrev pub Bytes : Type 0
Bytes = List ℕ

-- byte classes of the standard library and of `matches!`
abbrev pub between : ℕ → ℕ → ℕ → Bool
between lo hi b = leb lo b && leb b hi

unfoldable pub is_ascii_hexdigit : ℕ → Bool
is_ascii_hexdigit b = between b'0' b'9' b || between b'a' b'f' b || between b'A' b'F' b

unfoldable pub hex_nibble : ℕ → ℕ
hex_nibble byte =
    if between b'0' b'9' byte
    then byte - b'0'
    else if between b'a' b'f' byte
    then byte - b'a' + 10
    else 0

-- `(hi << 4) | lo` on u8
unfoldable pub join_nibbles : ℕ → ℕ → ℕ
join_nibbles hi lo = bit_or ((hi * 16) % 256) lo

-- the loop over `chunks_exact(2)`
unfoldable pub decode_pairs : Bytes → Bytes
unfolding join_nibbles hex_nibble
decode_pairs (a ∷ b ∷ rest) = join_nibbles (hex_nibble a) (hex_nibble b) ∷ decode_pairs rest
decode_pairs _ = []

-- Sha256::parse
unfoldable pub parse_sha256 : Bytes → Result ValidationError Bytes
unfolding is_ascii_hexdigit decode_pairs
parse_sha256 bytes =
    if not (eqb (length bytes) 64) || not (all is_ascii_hexdigit bytes)
    then err sha256
    else if any (between b'A' b'F') bytes
    then err sha256
    else ok (decode_pairs bytes)

abbrev pub hex_digits : Bytes
hex_digits =
    b'0' ∷ b'1' ∷ b'2' ∷ b'3' ∷ b'4' ∷ b'5' ∷ b'6' ∷ b'7' ∷ b'8' ∷ b'9' ∷ b'a' ∷ b'b' ∷ b'c' ∷ b'd'
    ∷ b'e' ∷ b'f' ∷ []

-- Sha256's Display
unfoldable pub display_sha256 : Bytes → Bytes
display_sha256 [] = []
display_sha256 (byte ∷ rest) =
    get_or hex_digits (byte / 16) 0 ∷ get_or hex_digits (byte % 16) 0 ∷ display_sha256 rest

-- `hyphens.contains(&index)`
is_hyphen_index : ℕ → Bool
is_hyphen_index index = eqb index 8 || eqb index 13 || eqb index 18 || eqb index 23

lower_hex : ℕ → Bool
lower_hex byte = between b'0' b'9' byte || between b'a' b'f' byte

-- `bytes.iter().enumerate().all(..)`, from an index
unfoldable pub shape_from : ℕ → Bytes → Bool
unfolding is_hyphen_index lower_hex
shape_from index [] = true
shape_from index (byte ∷ rest) =
    (if is_hyphen_index index then eqb byte b'-' else lower_hex byte) && shape_from (index + 1) rest

-- ExecutionId::parse
unfoldable pub parse_execution_id : Bytes → Result ValidationError Bytes
unfolding shape_from
parse_execution_id bytes =
    let shape_valid = eqb (length bytes) 36 && shape_from 0 bytes in
    let version = get_or bytes 14 0 in
    let variant = get_or bytes 19 0 in
    if not shape_valid
      || not (eqb version b'4')
      || not (eqb variant b'8' || eqb variant b'9' || eqb variant b'a' || eqb variant b'b')
    then err execution_id
    else ok bytes

-- `value.encode_utf16().count()`: a scalar past the basic plane takes two units
unfoldable pub utf16_length : List ℕ → ℕ
utf16_length [] = 0
utf16_length (c ∷ cs) = (if ltb c 0x10000 then 1 else 2) + utf16_length cs

-- `value.starts_with('-')`
unfoldable pub starts_with_dash : List ℕ → Bool
starts_with_dash [] = false
starts_with_dash (c ∷ cs) = eqb c b'-'

-- `value.contains("..")`
unfoldable pub contains_dots : List ℕ → Bool
contains_dots (a ∷ b ∷ cs) = eqb a b'.' && eqb b b'.' || contains_dots (b ∷ cs)
contains_dots _ = false

unfoldable pub is_control : ℕ → Bool
is_control c = leb c 0x1f || eqb c 0x7f

unfoldable pub valid_build_target : List ℕ → Bool
unfolding utf16_length starts_with_dash contains_dots is_control
valid_build_target value =
    ltb 0 (utf16_length value)
    && leb (utf16_length value) 256
    && not (starts_with_dash value)
    && not (contains_dots value)
    && not (any is_control value)

-- BuildTarget::parse
unfoldable pub parse_build_target : List ℕ → Result ValidationError (List ℕ)
unfolding valid_build_target
parse_build_target value = if not (valid_build_target value) then err build_target else ok value
