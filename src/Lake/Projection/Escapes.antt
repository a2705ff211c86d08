-- ===== src/Lake/Projection/Escapes.antt =====
-- What json_string of rust/crates/leanbun-lake-bridge/src/model.rs writes for one byte, as the parser of
-- rust/crates/leanbun-codec/src/lib.rs reads them.
use leanbun.Base.{
  ℕ, suc, ◌+◌, ◌*◌, ◌/◌, ◌%◌, ◌^◌, ◌<◌, ◌≡◌, refl, sym, ap, ◌∙◌, subst, Bool, true, false, Option,
  none, some, [], ◌∷◌, ◌++◌, get_or, if◌then◌else◌, leb, eqb, eqb_iff, ok, holds_below,
  holds_below_lem, holds_from, bytes, ltb, arith,
}
use leanbun.Core.Identity.{hex_digits}
use leanbun.Codec.Json.{Bytes}
use leanbun.Codec.Parser
use leanbun.Codec.Parser.{
  Parser, Action, max_json_depth, ◌>>=◌, pure, fail, advance, peek, next, ok_or, next_or,
  parse_unicode, parse_escape, escape, hex_quad, continue, escaped_scalar, string_loop,
  parse_string, parse_strict_json, document, parse_value, dispatch, enter_value, value_of, consume,
  skip_whitespace, run_length, take_if, peek_is,
}
use leanbun.Codec.Text.{between, hex_digit, is_scalar, encode_utf8}
use leanbun.Lock.Hex.{hex}
use leanbun.Lake.Projection.{escape_byte}

abbrev pub at : Bytes → ℕ → ℕ → Parser
at bs i k = record { rest = bs; position = i; nodes = k }

-- the digit that an optional digit is
is_same : Option ℕ → ℕ → Bool
is_same none d = false
is_same (some e) d = eqb e d

is_same-eq : (o : Option ℕ) (d : ℕ) → is_same o d ≡ true → o ≡ some d
unfolding is_same
is_same-eq none d h = cc
is_same-eq (some e) d h = ap some ((eqb_iff e d).0 h)

digit_table : holds_below 16 (λ d. is_same (hex_digit (get_or hex_digits d 0)) d) ≡ true
unfolding holds_from hex_digit is_same
digit_table = refl

hex_digit-hex : (d : ℕ) → d < 16 → hex_digit (get_or hex_digits d 0) ≡ some d
hex_digit-hex d small = is_same-eq _ d (holds_below_lem 16 _ d digit_table small)

hex_digits_step :
    (n value c d : ℕ) (rest : Bytes) (i k : ℕ)
    → hex_digit c ≡ some d
    → Parser.hex_digits (suc n) value (at (c ∷ rest) i k)
      ≡ Parser.hex_digits n ((value * 16) % 2 ^ 16 + d) (at rest (i + 1) k)
unfolding Parser.hex_digits ◌>>=◌ next_or next ok_or peek advance pure
hex_digits_step n value c d rest i k h = rw h refl

hex_quad-hex :
    (b : ℕ) (rest : Bytes) (i k : ℕ)
    → b < 32
    → hex_quad (at (b'0' ∷ b'0' ∷ hex (b ∷ []) ++ rest) i k) ≡ ok (b, at rest (i + 1 + 1 + 1 + 1) k)
unfolding hex_quad hex Parser.hex_digits pure
hex_quad-hex b rest i k small =
    hex_digits_step 3 0 b'0' 0 _ i k (hex_digit-hex 0 (omega arith))
    ∙ hex_digits_step 2 0 b'0' 0 _ _ k (hex_digit-hex 0 (omega arith))
    ∙ hex_digits_step 1 0 _ (b / 16) _ _ k (hex_digit-hex (b / 16) (omega arith))
    ∙ hex_digits_step 0 _ _ (b % 16) _ _ k (hex_digit-hex (b % 16) (omega arith))
    ∙ ended
  where
    value : (0 * 16 % 2 ^ 16 + b / 16) * 16 % 2 ^ 16 + b % 16 ≡ b
    value = omega arith

    ended :
        Parser.hex_digits 0
          ((0 * 16 % 2 ^ 16 + b / 16) * 16 % 2 ^ 16 + b % 16)
          (at rest (i + 1 + 1 + 1 + 1) k)
        ≡ ok (b, at rest (i + 1 + 1 + 1 + 1) k)
    ended = ap (λ v. ok (v, at rest (i + 1 + 1 + 1 + 1) k)) value

parse_unicode-hex :
    (out : Bytes) (b : ℕ) (rest : Bytes) (i k : ℕ)
    → b < 32
    → parse_unicode out (at (b'0' ∷ b'0' ∷ hex (b ∷ []) ++ rest) i k)
      ≡ ok (out ++ b ∷ [], at rest (i + 1 + 1 + 1 + 1) k)
unfolding parse_unicode escaped_scalar ◌>>=◌ pure encode_utf8 is_scalar
parse_unicode-hex out b rest i k small =
    let high : between 0xd800 0xdbff b ≡ false = ground arith in
    let low : between 0xdc00 0xdfff b ≡ false = ground arith in
    let scalar : is_scalar b ≡ true = ground arith in
    let ascii : ltb b 0x80 ≡ true = ground arith in
    rw (hex_quad-hex b rest i k small) (rw high (rw low (rw scalar (rw ascii refl))))

-- a run of the string loop takes the bytes for the one that they are written for
pub record Reading (b : ℕ) (bs : Bytes) : Type 0 where
  pub runs :
      (n : ℕ) (out rest : Bytes) (i k : ℕ)
      → (j : ℕ) × (string_loop (suc n) out (at (bs ++ rest) i k)
          ≡ string_loop n (out ++ b ∷ []) (at rest j k))

Reading-if :
    (b : ℕ) (test : Bool) (x y : Bytes)
    → (test ≡ true → Reading b x)
    → (test ≡ false → Reading b y)
    → Reading b (if test then x else y)
Reading-if b true x y f g = f refl
Reading-if b false x y f g = g refl

-- the escapes of one letter
record Letters : Type 0 where
  quote : Reading b'"' (bytes "\\\"")
  backslash : Reading b'\\' (bytes "\\\\")
  backspace : Reading 8 (bytes "\\b")
  form_feed : Reading 12 (bytes "\\f")
  line_feed : Reading 10 (bytes "\\n")
  carriage_return : Reading 13 (bytes "\\r")
  tab : Reading 9 (bytes "\\t")

letters : Letters
unfolding string_loop ◌>>=◌ next_or next ok_or peek advance pure parse_escape escape
letters = record {
  quote = record { runs = λ n out rest i k. (i + 1 + 1, refl) };
  backslash = record { runs = λ n out rest i k. (i + 1 + 1, refl) };
  backspace = record { runs = λ n out rest i k. (i + 1 + 1, refl) };
  form_feed = record { runs = λ n out rest i k. (i + 1 + 1, refl) };
  line_feed = record { runs = λ n out rest i k. (i + 1 + 1, refl) };
  carriage_return = record { runs = λ n out rest i k. (i + 1 + 1, refl) };
  tab = record { runs = λ n out rest i k. (i + 1 + 1, refl) };
}

control-Reading : (b : ℕ) → b < 32 → Reading b (bytes "\\u00" ++ hex (b ∷ []))
unfolding string_loop ◌>>=◌ next_or next ok_or peek advance pure parse_escape escape
control-Reading b small = record {
  runs = λ n out rest i k. (
    i + 1 + 1 + 1 + 1 + 1 + 1,
    ap (λ r. continue r (λ out. string_loop n out))
        (parse_unicode-hex out b rest (i + 1 + 1) k small),
  );
}

plain-Reading :
    (b : ℕ) → eqb b b'"' ≡ false → eqb b b'\\' ≡ false → leb b 0x1f ≡ false → Reading b (b ∷ [])
unfolding string_loop ◌>>=◌ next_or next ok_or peek advance pure
plain-Reading b no_quote no_backslash no_control = record {
  runs = λ n out rest i k. (i + 1, rw no_quote (rw no_backslash (rw no_control refl)));
}

Reading-eq : (b c : ℕ) (bs : Bytes) → Reading c bs → eqb b c ≡ true → Reading b bs
Reading-eq b c bs r h = subst (λ x. Reading x bs) (sym ((eqb_iff b c).0 h)) r

pub Reading-escape_byte : (b : ℕ) → Reading b (escape_byte b)
unfolding escape_byte
Reading-escape_byte b = Reading-if b _ _ _ (Reading-eq b _ _ letters.quote) λ quote.
    Reading-if b _ _ _ (Reading-eq b _ _ letters.backslash) λ backslash.
      Reading-if b _ _ _ (Reading-eq b _ _ letters.backspace) λ _.
        Reading-if b _ _ _ (Reading-eq b _ _ letters.form_feed) λ _.
          Reading-if b _ _ _ (Reading-eq b _ _ letters.line_feed) λ _.
            Reading-if b _ _ _ (Reading-eq b _ _ letters.carriage_return) λ _.
              Reading-if b _ _ _ (Reading-eq b _ _ letters.tab) λ _.
                Reading-if b _ _ _ (λ control. control-Reading b (ground arith))
                  λ control. plain-Reading b quote backslash control
