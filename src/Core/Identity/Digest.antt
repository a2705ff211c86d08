-- ===== src/Core/Identity/Digest.antt =====
-- The text of a digest.
use leanbun.Base.{
  holds_from, holds_below, holds_below_lem, ℕ, zero, suc, ◌+◌, ◌*◌, ◌/◌, ◌%◌, ◌<◌, ◌≡◌, refl, ap,
  Bool, true, false, not, ◌&&◌, ◌||◌, ◌↔◌, if◌then◌else◌, ltb, err, [], ◌∷◌, length, all, any, All,
  eqb, eqb_iff, arith, ok, get_or,
}
use leanbun.Core.Identity.{
  Bytes, parse_sha256, display_sha256, decode_pairs, join_nibbles, hex_nibble, hex_digits,
  is_ascii_hexdigit, between, ValidationError,
}

-- 32 bytes
pub record IsDigest (d : Bytes) : Type 0 where
  pub size : length d ≡ 32
  pub bytes : All (λ b. b < 256) d

decode_digits_table :
    holds_below 256 (λ b.
      eqb
        (join_nibbles
          (hex_nibble (get_or hex_digits (b / 16) 0))
          (hex_nibble (get_or hex_digits (b % 16) 0)))
        b)
    ≡ true
unfolding holds_from join_nibbles hex_nibble
decode_digits_table = refl

decode_digits :
    (b : ℕ)
    → b < 256
    → join_nibbles
        (hex_nibble (get_or hex_digits (b / 16) 0))
        (hex_nibble (get_or hex_digits (b % 16) 0))
      ≡ b
decode_digits b h = (eqb_iff _ _).0 (holds_below_lem 256 _ b decode_digits_table h)

-- a lowercase hexadecimal digit
abbrev lower : ℕ → Bool
lower b = is_ascii_hexdigit b && not (between b'A' b'F' b)

digits_lower_table : holds_below 16 (λ n. lower (get_or hex_digits n 0)) ≡ true
unfolding holds_from is_ascii_hexdigit
digits_lower_table = refl

digit_lower : (n : ℕ) → n < 16 → lower (get_or hex_digits n 0) ≡ true
digit_lower n h = holds_below_lem 16 _ n digits_lower_table h

nibble_table :
    holds_below 103
      (λ c. not (lower c) || eqb (get_or hex_digits (hex_nibble c) 0) c && ltb (hex_nibble c) 16)
    ≡ true
unfolding holds_from is_ascii_hexdigit hex_nibble
nibble_table = refl

lower-lt : (c : ℕ) → lower c ≡ true → c < 103
unfolding is_ascii_hexdigit
lower-lt c h = ground arith

nibble_lem :
    (c : ℕ) → lower c ≡ true → (get_or hex_digits (hex_nibble c) 0 ≡ c) × (hex_nibble c < 16)
nibble_lem c h =
    from_table (get_or hex_digits (hex_nibble c) 0) (hex_nibble c) (lower c) h
      (holds_below_lem 103 _ c nibble_table (lower-lt c h))
  where
    from_table :
        (d n : ℕ) (low : Bool)
        → low ≡ true
        → (not low || eqb d c && ltb n 16) ≡ true
        → (d ≡ c) × (n < 16)
    from_table d n low p q = ground arith

join_table : holds_below 256 (λ x. eqb (join_nibbles (x / 16) (x % 16)) x) ≡ true
unfolding holds_from join_nibbles
join_table = refl

join_nibbles_lem : (hi lo : ℕ) → hi < 16 → lo < 16 → join_nibbles hi lo ≡ hi * 16 + lo
join_nibbles_lem hi lo p q =
    let x = hi * 16 + lo in
    let whole = (eqb_iff _ _).0 (holds_below_lem 256 _ x join_table (omega arith)) in
    let high : x / 16 ≡ hi = omega arith in
    let low : x % 16 ≡ lo = omega arith in rw (high, low) at whole

-- the text of a digest has two digits for each byte, all lowercase
display_shape :
    (d : Bytes)
    → All (λ b. b < 256) d
    → (length (display_sha256 d) ≡ 2 * length d) × (all lower (display_sha256 d) ≡ true)
unfolding display_sha256
display_shape [] h = (refl, refl)
display_shape (b ∷ bs) (p, ps) =
    let (len, low) = display_shape bs ps in
    let hi = digit_lower (b / 16) (omega arith) in
    let lo = digit_lower (b % 16) (omega arith) in (omega arith, rw (hi, lo, low))

lower-printable : (text : Bytes) → all lower text ≡ true → All (λ b. 32 < b) text
unfolding is_ascii_hexdigit
lower-printable [] h = tt
lower-printable (b ∷ bs) h = (ground arith, lower-printable bs (ground arith))

pub display-printable : (d : Bytes) → IsDigest d → All (λ b. 32 < b) (display_sha256 d)
display-printable d h = lower-printable (display_sha256 d) (display_shape d h.bytes).1

pub length-display_sha256 : (d : Bytes) → IsDigest d → length (display_sha256 d) ≡ 64
length-display_sha256 d h = omega (arith, (display_shape d h.bytes).0, h.size)

decode-display : (d : Bytes) → All (λ b. b < 256) d → decode_pairs (display_sha256 d) ≡ d
unfolding display_sha256 decode_pairs
decode-display [] h = refl
decode-display (b ∷ bs) (p, ps) = cc (decode_digits b p, decode-display bs ps)

-- decoding pairs of lowercase digits, and printing again
display-decode :
    (n : ℕ) (text : Bytes)
    → length text ≡ 2 * n
    → all lower text ≡ true
    → (display_sha256 (decode_pairs text) ≡ text)
      × (length (decode_pairs text) ≡ n)
      × All (λ b. b < 256) (decode_pairs text)
unfolding display_sha256 decode_pairs
display-decode n [] e h = (refl, omega arith, tt)
display-decode n (a ∷ []) e h = absurd (omega arith)
display-decode zero (a ∷ b ∷ rest) e h = absurd (omega arith)
display-decode (suc n) (a ∷ b ∷ rest) e h =
    let (la, lb, lr) = three (lower a) (lower b) (all lower rest) h in
    let (same, len, small) = display-decode n rest (omega arith) lr in
    let (da, na) = nibble_lem a la in
    let (db, nb) = nibble_lem b lb in
    let byte = join_nibbles_lem (hex_nibble a) (hex_nibble b) na nb in
    let hi : join_nibbles (hex_nibble a) (hex_nibble b) / 16 ≡ hex_nibble a = omega arith in
    let lo : join_nibbles (hex_nibble a) (hex_nibble b) % 16 ≡ hex_nibble b = omega arith in
    (rw (hi, lo) (cc (da, db, same)), omega arith, (omega arith, small))
  where
    three : (p q r : Bool) → (p && (q && r)) ≡ true → (p ≡ true) × (q ≡ true) × (r ≡ true)
    three p q r t = ground arith

-- `parse` tests the two classes apart
all-lower :
    (text : Bytes)
    → (all lower text ≡ true)
      ↔ ((all is_ascii_hexdigit text ≡ true) × (any (between b'A' b'F') text ≡ false))
all-lower [] = (λ _. (refl, refl), λ _. refl)
all-lower (c ∷ cs) =
    split (is_ascii_hexdigit c) (between b'A' b'F' c) (all lower cs) (all is_ascii_hexdigit cs)
      (any (between b'A' b'F') cs) (all-lower cs)
  where
    split :
        (p q r s t : Bool)
        → ((r ≡ true) ↔ ((s ≡ true) × (t ≡ false)))
        → (((p && not q) && r) ≡ true) ↔ (((p && s) ≡ true) × ((q || t) ≡ false))
    split p q r s t h = ground (arith, h.0, h.1)

-- The text of every digest parses back to it.
pub parse-display : (d : Bytes) → IsDigest d → parse_sha256 (display_sha256 d) ≡ ok d
unfolding parse_sha256
parse-display d h =
    let (len, low) = display_shape d h.bytes in
    let (hex, upper) = (all-lower (display_sha256 d)).0 low in
    let size = (eqb_iff (length (display_sha256 d)) 64).1 (omega (arith, h.size)) in
    rw (size, hex, upper) (ap ok (decode-display d h.bytes))

-- What parses is a digest, and its text is the text that was read: no second spelling is accepted.
pub parse_sha256-eq_ok :
    (text d : Bytes) → parse_sha256 text ≡ ok d → IsDigest d × (display_sha256 d ≡ text)
unfolding parse_sha256
parse_sha256-eq_ok text d h =
    let (size, hex, upper, e) =
      accepted (eqb (length text) 64) (all is_ascii_hexdigit text) (any (between b'A' b'F') text)
        h in
    let low = (all-lower text).1 (hex, upper) in
    let (same, len, small) =
      display-decode 32 text (omega (arith, (eqb_iff (length text) 64).0 size)) low in
    (rw (← e) (record { size = len; bytes = small }), rw (← e) same)
  where
    accepted :
        (p q r : Bool)
        → (if not p || not q
            then err ValidationError.sha256
            else if r
            then err ValidationError.sha256
            else ok (decode_pairs text))
          ≡ ok d
        → (p ≡ true) × (q ≡ true) × (r ≡ false) × (decode_pairs text ≡ d)
    accepted p q r t = ground arith
