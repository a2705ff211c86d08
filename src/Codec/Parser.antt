-- ===== src/Codec/Parser.antt =====
-- `struct Parser` of rust/crates/leanbun-codec/src/lib.rs and its methods. The input and the position
-- are kept as the bytes not yet read, beside the position itself. An error ends the parse, so an
-- action returns its result with the parser, or the error.
use leanbun.Base.{
  ℕ, zero, suc, ◌+◌, ◌-◌, ◌*◌, ◌%◌, ◌^◌, Bool, true, false, ◌||◌, not, Option, none, some, [], ◌∷◌,
  ◌++◌, ◌==◌, bytes_equal, length, take, drop, ltb, leb, eqb, if◌then◌else◌, Result, ok, err,
}
use leanbun.Codec.Json.{
  Bytes, StrictJson, Items, Fields, null, bool, number, string, array, object, no_items, no_fields,
  JsonError, Detail, trailing_content, nesting_limit, node_limit, expected_value, duplicate_key,
  unterminated_string, not_utf8, control_byte, unterminated_escape, invalid_low_surrogate,
  lone_low_surrogate, invalid_scalar, invalid_escape, invalid_unicode_escape, leading_zero,
  invalid_integer, missing_fraction, missing_exponent, number_not_utf8, invalid_literal,
  expected_byte, out_of_fuel, push_item, contains_key, insert_field,
}
use leanbun.Codec.Text.{
  between, is_whitespace, is_digit, is_utf8, is_scalar, encode_utf8, hex_digit,
}

abbrev pub max_json_depth : ℕ
max_json_depth = 128

abbrev pub max_json_nodes : ℕ
max_json_nodes = 100_000

pub record Parser : Type 0 where
  pub rest : Bytes
  pub position : ℕ
  pub nodes : ℕ

abbrev pub Action : Type 0 → Type 0
Action A = Parser → Result JsonError (A × Parser)

abbrev pub continue :
    {A B : Type 0} → Result JsonError (A × Parser) → (A → Action B) → Result JsonError (B × Parser)
continue (ok (a, p)) f = f a p
continue (err e) f = err e

infixl 5 ◌>>=◌ ◌>>◌
unfoldable pub ◌>>=◌ : {Read Made : Type 0} → Action Read → (Read → Action Made) → Action Made
◌>>=◌ read next_action p = continue (read p) next_action

abbrev pub ◌>>◌ : {B : Type 0} → Action (Unit {0}) → Action B → Action B
m >> k = m >>= λ _. k

unfoldable pub pure : {A : Type 0} → A → Action A
pure a p = ok (a, p)

-- `Err(self.error(detail))`
unfoldable pub fail : {A : Type 0} → Detail → Action A
fail detail p = err (record { position = p.position; detail = detail })

-- `self.position += n`
unfoldable pub advance : ℕ → Parser → Parser
advance n p = record p { rest = drop n p.rest; position = p.position + n }

first : Bytes → Option ℕ
first [] = none
first (b ∷ bs) = some b

unfoldable pub peek : Parser → Option ℕ
unfolding first
peek p = first p.rest

unfoldable pub peek_is : (ℕ → Bool) → Parser → Bool
unfolding peek
peek_is test p = elim (peek p) [ none ↦ false | some b ↦ test b ]

-- `while matches!(self.peek(), ..) { self.position += 1 }`: the length of the run
unfoldable pub run_length : (ℕ → Bool) → Bytes → ℕ
run_length test [] = 0
run_length test (b ∷ bs) = let further = suc (run_length test bs) in if test b then further else 0

unfoldable pub skip_whitespace : Action (Unit {0})
unfolding run_length advance
skip_whitespace p = ok (tt, advance (run_length is_whitespace p.rest) p)

unfoldable pub consume_digits : Action (Unit {0})
unfolding run_length advance
consume_digits p = ok (tt, advance (run_length is_digit p.rest) p)

unfoldable pub next : Action (Option ℕ)
unfolding peek advance
next p = elim (peek p) [ none ↦ ok (none, p) | some b ↦ ok (some b, advance 1 p) ]

unfoldable pub take_if : ℕ → Action Bool
unfolding advance
take_if expected p =
    if peek_is (λ b. eqb b expected) p then ok (true, advance 1 p) else ok (false, p)

unfoldable pub consume : ℕ → Action (Unit {0})
consume expected = do
  skip_whitespace
  taken ← take_if expected
  if taken then pure tt else fail (expected_byte expected)

unfoldable pub literal : Bytes → Action (Unit {0})
unfolding advance bytes_equal
literal expected p =
    if take (length expected) p.rest == expected
    then ok (tt, advance (length expected) p)
    else fail invalid_literal p

-- `.ok_or_else(|| self.error(detail))?`
unfoldable pub ok_or : {A : Type 0} → Option A → Detail → Action A
ok_or none detail = fail detail
ok_or (some a) detail = pure a

unfoldable pub next_or : Detail → Action ℕ
next_or detail = do byte ← next; ok_or byte detail

-- `for _ in 0..4` of `hex_quad`; the low four bits of `value << 4` are clear, so `|` is a sum
unfoldable pub hex_digits : ℕ → ℕ → Action ℕ
hex_digits zero value = pure value
hex_digits (suc n) value = do
  byte ← next_or invalid_unicode_escape
  digit ← ok_or (hex_digit byte) invalid_unicode_escape
  hex_digits n ((value * 16) % 2 ^ 16 + digit)

unfoldable pub hex_quad : Action ℕ
hex_quad = hex_digits 4 0

-- the branch `b'u'` of `parse_escape`: the scalar that the escape names
unfoldable pub escaped_scalar : Action ℕ
escaped_scalar = do
  first_unit ← hex_quad
  let pair : Action ℕ = do
    consume b'\\'
    consume b'u'
    second ← hex_quad
    if not (between 0xdc00 0xdfff second)
        then fail invalid_low_surrogate
        else pure (0x10000 + (first_unit - 0xd800) * 1024 + (second - 0xdc00))
  if between 0xd800 0xdbff first_unit
      then pair
      else if between 0xdc00 0xdfff first_unit
      then fail lone_low_surrogate
      else pure first_unit

unfoldable pub parse_unicode : Bytes → Action Bytes
parse_unicode output = do
  scalar ← escaped_scalar
  if is_scalar scalar then pure (output ++ encode_utf8 scalar) else fail invalid_scalar

-- the `match` of `parse_escape`
unfoldable pub escape : Bytes → ℕ → Action Bytes
escape output c =
    if eqb c b'"' || eqb c b'\\' || eqb c b'/'
    then pure (output ++ c ∷ [])
    else if eqb c b'b'
    then pure (output ++ 8 ∷ [])
    else if eqb c b'f'
    then pure (output ++ 12 ∷ [])
    else if eqb c b'n'
    then pure (output ++ 10 ∷ [])
    else if eqb c b'r'
    then pure (output ++ 13 ∷ [])
    else if eqb c b't'
    then pure (output ++ 9 ∷ [])
    else if eqb c b'u'
    then parse_unicode output
    else fail invalid_escape

unfoldable pub parse_escape : Bytes → Action Bytes
parse_escape output = do escaped ← next_or unterminated_escape; escape output escaped

-- The loop of `parse_string`. Each round takes a byte, so the bytes left are fuel enough.
unfoldable pub string_loop : ℕ → Bytes → Action Bytes
string_loop zero output = fail out_of_fuel
string_loop (suc fuel) output = do
  byte ← next_or unterminated_string
  let again : Action Bytes = string_loop fuel (output ++ byte ∷ [])
  let after_escape : Action Bytes = parse_escape output >>= λ out. string_loop fuel out
  if eqb byte b'"'
      then (if is_utf8 output then pure output else fail not_utf8)
      else if eqb byte b'\\'
      then after_escape
      else if leb byte 0x1f
      then fail control_byte
      else again

unfoldable pub parse_string : Action Bytes
parse_string = do consume b'"'; λ p. string_loop (suc (length p.rest)) [] p

-- the integer part of `parse_number`, after the sign
unfoldable pub integer_part : Action (Unit {0})
unfolding advance
integer_part p =
    if peek_is (λ b. eqb b b'0') p
    then (if peek_is is_digit (advance 1 p)
        then fail leading_zero (advance 1 p)
        else ok (tt, advance 1 p))
    else if peek_is (between b'1' b'9') p
    then consume_digits p
    else fail invalid_integer p

unfoldable pub fraction_part : Action (Unit {0})
fraction_part = do
  dot ← take_if b'.'
  if dot
      then (λ p. if peek_is is_digit p then consume_digits p else fail missing_fraction p)
      else pure tt

-- an optional sign
unfoldable pub exponent_sign : Action (Unit {0})
unfolding advance
exponent_sign p =
    if peek_is (λ b. eqb b b'+' || eqb b b'-') p then ok (tt, advance 1 p) else ok (tt, p)

unfoldable pub exponent_part : Action (Unit {0})
unfolding advance
exponent_part p =
    let digits : Action (Unit {0}) =
      λ q. if peek_is is_digit q then consume_digits q else fail missing_exponent q in
    if peek_is (λ b. eqb b b'e' || eqb b b'E') p
    then (exponent_sign >>= λ _. digits) (advance 1 p)
    else ok (tt, p)

-- `&self.input[start..self.position]`
unfoldable pub parse_number : Action Bytes
parse_number start =
    (do
      take_if b'-' >>= λ _. integer_part
      fraction_part
      exponent_part
      λ p.
          let lexical = take (p.position - start.position) start.rest in
          if is_utf8 lexical then ok (lexical, p) else fail number_not_utf8 p)
      start

-- `parse_array` and `parse_object` call `parse_value(depth + 1)`, their first argument here. Each
-- round of their loops takes a byte, so the bytes left are fuel enough.
module _ (value : Action StrictJson) where
  unfoldable pub array_loop : ℕ → Items → Action StrictJson
  array_loop zero values = fail out_of_fuel
  array_loop (suc fuel) values = do
    v ← value
    skip_whitespace
    done ← take_if b']'
    let again : Action StrictJson = array_loop fuel (push_item values v)
    if done then pure (array (push_item values v)) else consume b',' >> again

  unfoldable pub parse_array : Action StrictJson
  parse_array = do
    consume b'['
    skip_whitespace
    empty ← take_if b']'
    if empty then pure (array no_items) else λ p. array_loop (suc (length p.rest)) no_items p

  unfoldable pub object_loop : ℕ → Fields → Action StrictJson
  object_loop zero values = fail out_of_fuel
  object_loop (suc fuel) values = do
    skip_whitespace
    key ← parse_string
    let again : StrictJson → Action StrictJson = λ v. object_loop fuel (insert_field key v values)
    let entry : Action StrictJson = do
      skip_whitespace
      consume b':'
      v ← value
      skip_whitespace
      done ← take_if b'}'
      if done then pure (object (insert_field key v values)) else consume b',' >> again v
    if contains_key key values then fail (duplicate_key key) else entry

  unfoldable pub parse_object : Action StrictJson
  parse_object = do
    consume b'{'
    skip_whitespace
    empty ← take_if b'}'
    if empty then pure (object no_fields) else λ p. object_loop (suc (length p.rest)) no_fields p

-- The `match` of `parse_value`; `value` is `parse_value(depth + 1)`.
unfoldable pub dispatch : Action StrictJson → Action StrictJson
unfolding peek
dispatch value p = elim (peek p) [
  | none ↦ fail expected_value p
  | some c ↦
      if eqb c b'n'
      then (literal (b'n' ∷ b'u' ∷ b'l' ∷ b'l' ∷ []) >> pure null) p
      else if eqb c b't'
      then (literal (b't' ∷ b'r' ∷ b'u' ∷ b'e' ∷ []) >> pure (bool true)) p
      else if eqb c b'f'
      then (literal (b'f' ∷ b'a' ∷ b'l' ∷ b's' ∷ b'e' ∷ []) >> pure (bool false)) p
      else if eqb c b'"'
      then (do s ← parse_string; pure (string s)) p
      else if eqb c b'['
      then parse_array value p
      else if eqb c b'{'
      then parse_object value p
      else if eqb c b'-' || is_digit c
      then (do n ← parse_number; pure (number n)) p
      else fail expected_value p
]

-- The checks of `parse_value` before its `match`.
unfoldable pub enter_value : ℕ → Action (Unit {0})
enter_value depth p =
    let q : Parser = record p { nodes = p.nodes + 1 } in
    if ltb max_json_depth depth
    then fail nesting_limit p
    else if ltb max_json_nodes q.nodes
    then fail node_limit q
    else ok (tt, q)

-- The depth goes up by one in each call, so fuel past the depth limit is enough.
unfoldable pub parse_value : ℕ → ℕ → Action StrictJson
parse_value zero depth = fail out_of_fuel
parse_value (suc fuel) depth = do
  enter_value depth
  skip_whitespace
  dispatch (λ p. parse_value fuel (depth + 1) p)

-- The value, and nothing behind it but whitespace.
unfoldable pub document : Action StrictJson
document = do
  skip_whitespace
  v ← parse_value (max_json_depth + 2) 0
  skip_whitespace
  λ p. if eqb (length p.rest) 0 then ok (v, p) else fail trailing_content p

-- the parser is dropped
unfoldable pub value_of : Result JsonError (StrictJson × Parser) → Result JsonError StrictJson
value_of (ok (v, p)) = ok v
value_of (err e) = err e

unfoldable pub parse_strict_json : Bytes → Result JsonError StrictJson
unfolding ◌>>=◌ pure fail advance peek peek_is run_length skip_whitespace consume_digits next
    take_if consume literal ok_or next_or hex_digits hex_quad escaped_scalar parse_unicode escape
    parse_escape string_loop parse_string integer_part fraction_part exponent_sign exponent_part
    parse_number array_loop parse_array object_loop parse_object dispatch enter_value parse_value
    document value_of push_item contains_key insert_field is_utf8 hex_digit is_scalar encode_utf8
parse_strict_json text = value_of (document (record { rest = text; position = 0; nodes = 0 }))
