-- ===== src/Lake/Projection/Strings.antt =====
-- The strings that json_string of rust/crates/leanbun-lake-bridge/src/model.rs writes, as the parser
-- of rust/crates/leanbun-codec/src/lib.rs reads them.
use leanbun.Base.{
  ℕ, zero, suc, ◌+◌, ◌≤◌, ◌<◌, ◌≡◌, sym, ap, ◌∙◌, true, [], ◌∷◌, ◌++◌, length, if◌then◌else◌, eqb,
  ok, append-nil, append_assoc, length-append, arith,
}
use leanbun.Codec.Json.{Bytes, StrictJson, trailing_content}
use leanbun.Codec.Parser.{
  Action, max_json_depth, ◌>>=◌, pure, fail, advance, peek, next, ok_or, next_or, continue,
  string_loop, parse_string, parse_strict_json, document, parse_value, dispatch, enter_value,
  value_of, consume, skip_whitespace, run_length, take_if, peek_is,
}
use leanbun.Codec.Text.{is_utf8}
use leanbun.Lock.Model.{Text}
use leanbun.Lake.Projection.{escape_byte, escape_text, json_string}
use leanbun.Lake.Projection.Escapes.{at, Reading-escape_byte}

string_loop-escape_text :
    (value : Text) (n : ℕ) (out rest : Bytes) (i k : ℕ)
    → length value < n
    → is_utf8 (out ++ value) ≡ true
    → (j : ℕ) × (string_loop n out (at (escape_text value ++ b'"' ∷ rest) i k)
        ≡ ok (out ++ value, at rest j k))
unfolding escape_text string_loop ◌>>=◌ next_or next ok_or peek advance pure
string_loop-escape_text value zero out rest i k fuel valid = absurd (omega arith)
string_loop-escape_text [] (suc n) out rest i k fuel valid = (i + 1, closed)
  where
    closed : string_loop (suc n) out (at (b'"' ∷ rest) i k) ≡ ok (out ++ [], at rest (i + 1) k)
    closed =
        let whole : is_utf8 out ≡ true = ap is_utf8 (sym (append-nil out)) ∙ valid in
        rw whole (ap (λ text. ok (text, at rest (i + 1) k)) (sym (append-nil out)))
string_loop-escape_text (b ∷ value) (suc n) out rest i k fuel valid =
    let after = escape_text value ++ b'"' ∷ rest in
    let (j, first) = (Reading-escape_byte b).runs n out after i k in
    let same : (out ++ b ∷ []) ++ value ≡ out ++ b ∷ value = append_assoc out (b ∷ []) value in
    let (m, others) =
      string_loop-escape_text value n (out ++ b ∷ []) rest j k (omega arith)
        (ap is_utf8 same ∙ valid) in
    (
      m,
      ap (λ bs. string_loop (suc n) out (at bs i k))
            (append_assoc (escape_byte b) (escape_text value) (b'"' ∷ rest))
          ∙ first
          ∙ others
          ∙ ap (λ text. ok (text, at rest m k)) same,
    )

length-escape_text : (value : Text) → length value ≤ length (escape_text value)
unfolding escape_text escape_byte
length-escape_text [] = omega arith
length-escape_text (b ∷ value) =
    rw (length-append (escape_byte b) (escape_text value))
      (omega (arith, length-escape_text value, written b))
  where
    written : (c : ℕ) → 0 < length (escape_byte c)
    written c = ground arith

parse_string-json_string :
    (value rest : Text) (i k : ℕ)
    → is_utf8 value ≡ true
    → (j : ℕ) × (parse_string (at (json_string value ++ rest) i k) ≡ ok (value, at rest j k))
unfolding json_string parse_string ◌>>=◌ consume skip_whitespace run_length take_if peek_is peek
    advance pure
parse_string-json_string value rest i k valid =
    let after = escape_text value ++ b'"' ∷ rest in
    let (j, read) =
      string_loop-escape_text value (suc (length after)) [] rest (i + 0 + 1) k
        (omega (arith, length-escape_text value, length-append (escape_text value) (b'"' ∷ rest)))
        valid in
    (
      j,
      ap (λ bs. string_loop (suc (length bs)) [] (at bs (i + 0 + 1) k))
            (append_assoc (escape_text value) (b'"' ∷ []) rest)
          ∙ read,
    )

dispatch-json_string :
    (value : Text) (inner : Action StrictJson)
    → is_utf8 value ≡ true
    → (j : ℕ) × (dispatch inner (at (json_string value) 0 1)
        ≡ ok (StrictJson.string value, at [] j 1))
unfolding dispatch peek json_string ◌>>=◌ pure
dispatch-json_string value inner valid =
    let (j, read) = parse_string-json_string value [] 0 1 valid in
    (
      j,
      ap (λ r. continue r (λ text. pure (StrictJson.string text)))
          (ap (λ bs. parse_string (at bs 0 1)) (sym (append-nil (json_string value))) ∙ read),
    )

-- The parser reads what json_string writes of a text as that text, where the text is UTF-8.
pub parse_strict_json-json_string :
    (value : Text)
    → is_utf8 value ≡ true
    → parse_strict_json (json_string value) ≡ ok (StrictJson.string value)
unfolding parse_strict_json document parse_value enter_value value_of skip_whitespace run_length
    advance ◌>>=◌ json_string
parse_strict_json-json_string value valid =
    let inner : Action StrictJson = λ p. parse_value (max_json_depth + 1) 1 p in
    let (j, read) = dispatch-json_string value inner valid in
    let close : StrictJson → Action StrictJson = λ v.
      (skip_whitespace >>= λ _ p.
      if eqb (length p.rest) 0 then ok (v, p) else fail trailing_content p) in
    ap (λ r. value_of (continue r close)) read
