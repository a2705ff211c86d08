-- ===== src/Codec/Lexical.antt =====
-- What the lexical actions read.
use leanbun.Base.{
  ℕ, zero, suc, ◌+◌, ◌-◌, ◌≤◌, ◌<◌, ◌≡◌, ◌≢◌, refl, Bool, true, false, [], ◌∷◌, Option, none, some,
  ok, length, take, length-drop, length-take, arith, if◌then◌else◌, eqb, ap, ==_iff, ◌==◌,
  bytes_equal, ◌*◌, ◌%◌, ◌^◌, ◌++◌, not, ◌||◌, leb,
}
use leanbun.Codec.Json.{Bytes, Detail, out_of_fuel}
use leanbun.Codec.Parser.{
  Parser, pure, fail, advance, peek, peek_is, run_length, skip_whitespace, consume_digits, next,
  ok_or, next_or, take_if, consume, escape, literal, hex_digits, hex_quad, escaped_scalar,
  parse_unicode, parse_escape, string_loop, parse_string, integer_part, fraction_part,
  exponent_sign, exponent_part, parse_number,
}
use leanbun.Codec.Text.{between, is_digit, is_utf8, is_scalar}
use leanbun.Codec.Ensures.{
  Ensures, holds, fails, Ensures-bind, Ensures-imp, Ensures-if, Ensures-if_at, Reads, Takes,
  Reads-refl, Reads-trans, Takes-Reads, Reads-Takes,
}

Reads-advance : (n : ℕ) (p : Parser) → n ≤ length p.rest → Reads p (advance n p)
unfolding advance
Reads-advance n p h = omega (arith, length-drop n p.rest)

Takes-advance : (n : ℕ) (p : Parser) → 0 < n → n ≤ length p.rest → Takes p (advance n p)
unfolding advance
Takes-advance n p pos h = omega (arith, length-drop n p.rest)

run_length-le : (test : ℕ → Bool) (bs : Bytes) → run_length test bs ≤ length bs
unfolding run_length
run_length-le test [] = omega arith
run_length-le test (b ∷ bs) = ground (arith, run_length-le test bs)

pub skip_whitespace-Reads : (p : Parser) → Ensures (λ _ q. Reads p q) (skip_whitespace p)
unfolding skip_whitespace
skip_whitespace-Reads p = holds (Reads-advance _ p (run_length-le _ p.rest))

consume_digits-Reads : (p : Parser) → Ensures (λ _ q. Reads p q) (consume_digits p)
unfolding consume_digits
consume_digits-Reads p = holds (Reads-advance _ p (run_length-le _ p.rest))

peek_is-pos : (test : ℕ → Bool) (p : Parser) → peek_is test p ≡ true → 0 < length p.rest
unfolding peek_is
peek_is-pos test p h = through p.rest h
  where
    through : (bs : Bytes) → peek_is test (record p { rest = bs }) ≡ true → 0 < length bs
    through [] e = cc
    through (b ∷ bs) e = omega arith

-- a byte was taken exactly where one is returned
abbrev Next : Parser → Option ℕ → Parser → Type 0
Next p none q = Reads p q
Next p (some b) q = Takes p q

next_at :
    (bs : Bytes) (i n : ℕ)
    → let p : Parser = record { rest = bs; position = i; nodes = n } in Ensures (Next p) (next p)
unfolding next peek advance
next_at [] i n = holds (Reads-refl _)
next_at (b ∷ bs) i n = holds (omega arith)

next-Next : (p : Parser) → Ensures (Next p) (next p)
next-Next p = next_at p.rest p.position p.nodes

pub take_if-Reads :
    (expected : ℕ) (p : Parser)
    → Ensures (λ taken q. if taken then Takes p q else Reads p q) (take_if expected p)
unfolding take_if
take_if-Reads expected p =
    Ensures-if (peek_is (λ b. eqb b expected) p)
      (λ h. holds (Takes-advance 1 p (omega arith) (peek_is-pos _ p h))) (λ h. holds (Reads-refl p))

pub consume-Takes : (expected : ℕ) (p : Parser) → Ensures (λ _ q. Takes p q) (consume expected p)
unfolding consume pure fail
consume-Takes expected p =
    Ensures-bind _ _ p (skip_whitespace-Reads p)
      λ _ q r. Ensures-bind _ _ q (take_if-Reads expected q) (taken_lem r)
  where
    taken_lem :
        {q : Parser}
        → Reads p q
        → (taken : Bool) (s : Parser) → (if taken then Takes q s else Reads q s)
        → Ensures
            (λ _ q. Takes p q)
            ((if taken then pure tt else fail (Detail.expected_byte expected)) s)
    taken_lem r true s t = holds (Reads-Takes r t)
    taken_lem r false s t = fails (cc)

pub literal-Takes :
    (expected : Bytes) (p : Parser)
    → 0 < length expected
    → Ensures (λ _ q. Takes p q) (literal expected p)
unfolding literal fail
literal-Takes expected p pos =
    Ensures-if (take (length expected) p.rest == expected)
      (λ h.
        let same : take (length expected) p.rest ≡ expected = (==_iff _ _).0 h in
        let size : length (take (length expected) p.rest) ≡ length expected = ap length same in
        holds (
          Takes-advance (length expected) p pos
            (omega (arith, length-take (length expected) p.rest))))
      (λ h. fails (cc))

ok_or-Reads :
    {A : Type 0} (o : Option A) (detail : Detail) (p : Parser)
    → detail ≢ out_of_fuel
    → Ensures (λ a q. (o ≡ some a) × Reads p q) (ok_or o detail p)
unfolding ok_or pure fail
ok_or-Reads none detail p n = fails n
ok_or-Reads (some a) detail p n = holds (refl, Reads-refl p)

next_or-Takes :
    (detail : Detail) (p : Parser)
    → detail ≢ out_of_fuel
    → Ensures (λ _ q. Takes p q) (next_or detail p)
unfolding next_or ok_or pure fail
next_or-Takes detail p n = Ensures-bind _ _ p (next-Next p) after
  where
    after :
        (byte : Option ℕ) (q : Parser)
        → Next p byte q
        → Ensures (λ _ r. Takes p r) (ok_or byte detail q)
    after none q h = fails n
    after (some b) q h = holds h

hex_digits-Reads : (n value : ℕ) (p : Parser) → Ensures (λ _ q. Reads p q) (hex_digits n value p)
unfolding hex_digits pure
hex_digits-Reads zero value p = holds (Reads-refl p)
hex_digits-Reads (suc n) value p =
    Ensures-bind _ _ p (next_or-Takes Detail.invalid_unicode_escape p (cc)) λ byte q h.
      Ensures-bind _ _ q (ok_or-Reads _ Detail.invalid_unicode_escape q (cc)) λ digit r k.
        Ensures-imp (λ _ s. Reads p s) (hex_digits-Reads n ((value * 16) % 2 ^ 16 + digit) r)
          λ _ s l. holds (Reads-trans h.reads_on (Reads-trans k.1 l))

hex_quad-Reads : (p : Parser) → Ensures (λ _ q. Reads p q) (hex_quad p)
unfolding hex_quad
hex_quad-Reads p = hex_digits-Reads 4 0 p

escaped_scalar-Reads : (p : Parser) → Ensures (λ _ q. Reads p q) (escaped_scalar p)
unfolding escaped_scalar pure fail
escaped_scalar-Reads p = Ensures-bind _ _ p (hex_quad-Reads p) λ unit q h.
    Ensures-if_at (between 0xd800 0xdbff unit) _ _ q
      (λ _. Ensures-bind _ _ q (consume-Takes b'\\' q) λ _ r k.
        Ensures-bind _ _ r (consume-Takes b'u' r) λ _ s l.
          Ensures-bind _ _ s (hex_quad-Reads s) λ second t m.
            Ensures-if_at (not (between 0xdc00 0xdfff second)) _ _ t (λ _. fails (cc))
              (λ _. holds (Reads-trans h (Reads-trans k.reads_on (Reads-trans l.reads_on m)))))
      (λ _. Ensures-if_at (between 0xdc00 0xdfff unit) _ _ q (λ _. fails (cc)) (λ _. holds h))

parse_unicode-Reads :
    (output : Bytes) (p : Parser) → Ensures (λ _ q. Reads p q) (parse_unicode output p)
unfolding parse_unicode pure fail
parse_unicode-Reads output p =
    Ensures-bind _ _ p (escaped_scalar-Reads p)
      λ scalar q h. Ensures-if_at (is_scalar scalar) _ _ q (λ _. holds h) (λ _. fails (cc))

escape-Reads :
    (output : Bytes) (c : ℕ) (p : Parser) → Ensures (λ _ q. Reads p q) (escape output c p)
unfolding escape pure fail
escape-Reads output c p =
    Ensures-if_at (eqb c b'"' || eqb c b'\\' || eqb c b'/') _ _ p (λ _. holds (Reads-refl p))
      λ _.
        Ensures-if_at (eqb c b'b') _ _ p (λ _. holds (Reads-refl p))
          λ _.
            Ensures-if_at (eqb c b'f') _ _ p (λ _. holds (Reads-refl p))
              λ _.
                Ensures-if_at (eqb c b'n') _ _ p (λ _. holds (Reads-refl p))
                  λ _.
                    Ensures-if_at (eqb c b'r') _ _ p (λ _. holds (Reads-refl p))
                      λ _.
                        Ensures-if_at (eqb c b't') _ _ p (λ _. holds (Reads-refl p))
                          λ _.
                            Ensures-if_at (eqb c b'u') _ _ p (λ _. parse_unicode-Reads output p)
                              λ _. fails (cc)

parse_escape-Takes :
    (output : Bytes) (p : Parser) → Ensures (λ _ q. Takes p q) (parse_escape output p)
unfolding parse_escape
parse_escape-Takes output p =
    Ensures-bind _ _ p (next_or-Takes Detail.unterminated_escape p (cc)) λ c q h.
      Ensures-imp (λ _ r. Takes p r) (escape-Reads output c q) λ _ r k. holds (Takes-Reads h k)

string_loop-Takes :
    (fuel : ℕ) (output : Bytes) (p : Parser)
    → length p.rest < fuel
    → Ensures (λ _ q. Takes p q) (string_loop fuel output p)
unfolding string_loop pure fail
string_loop-Takes zero output p h = absurd (omega arith)
string_loop-Takes (suc fuel) output p h =
    Ensures-bind _ _ p (next_or-Takes Detail.unterminated_string p (cc)) λ b q t.
      Ensures-if_at (eqb b b'"') _ _ q
        (λ _. Ensures-if_at (is_utf8 output) _ _ q (λ _. holds t) (λ _. fails (cc)))
        λ _.
          Ensures-if_at (eqb b b'\\') _ _ q
            (λ _. Ensures-bind _ _ q (parse_escape-Takes output q) λ out r u.
              Ensures-imp (λ _ s. Takes p s) (string_loop-Takes fuel out r (omega arith))
                λ _ s v. holds (omega arith))
            λ _.
              Ensures-if_at (leb b 0x1f) _ _ q (λ _. fails (cc))
                λ _.
                  Ensures-imp (λ _ s. Takes p s)
                    (string_loop-Takes fuel (output ++ b ∷ []) q (omega arith))
                    λ _ s v. holds (omega arith)

pub parse_string-Takes : (p : Parser) → Ensures (λ _ q. Takes p q) (parse_string p)
unfolding parse_string
parse_string-Takes p = Ensures-bind _ _ p (consume-Takes b'"' p) λ _ q h.
    Ensures-imp (λ _ r. Takes p r) (string_loop-Takes (suc (length q.rest)) [] q (omega arith))
      λ _ r k. holds (omega arith)

run_length-pos :
    (test : ℕ → Bool) (bs : Bytes) (i n : ℕ)
    → ((b : ℕ) → test b ≡ true → is_digit b ≡ true)
    → peek_is test (record { rest = bs; position = i; nodes = n }) ≡ true
    → 0 < run_length is_digit bs
unfolding peek_is run_length
run_length-pos test [] i n sub h = cc
run_length-pos test (b ∷ bs) i n sub h = rw (sub b h) (omega arith)

digits-Takes :
    (test : ℕ → Bool) (p : Parser)
    → ((b : ℕ) → test b ≡ true → is_digit b ≡ true)
    → peek_is test p ≡ true
    → Ensures (λ _ q. Takes p q) (consume_digits p)
unfolding consume_digits
digits-Takes test p sub h = holds (
    Takes-advance _ p (run_length-pos test p.rest p.position p.nodes sub h)
      (run_length-le _ p.rest))

integer_part-Takes : (p : Parser) → Ensures (λ _ q. Takes p q) (integer_part p)
unfolding integer_part fail
integer_part-Takes p = Ensures-if (peek_is (λ b. eqb b b'0') p) zero_digit λ _.
    Ensures-if (peek_is (between b'1' b'9') p)
      (λ nonzero. digits-Takes (between b'1' b'9') p (λ b h. ground arith) nonzero)
      (λ _. fails (cc))
  where
    zero_digit :
        peek_is (λ b. eqb b b'0') p ≡ true
        → Ensures
            (λ _ q. Takes p q)
            (if peek_is is_digit (advance 1 p)
              then fail Detail.leading_zero (advance 1 p)
              else ok (tt, advance 1 p))
    zero_digit z =
        Ensures-if (peek_is is_digit (advance 1 p)) (λ _. fails (cc))
          (λ _. holds (Takes-advance 1 p (omega arith) (peek_is-pos _ p z)))

fraction_part-Reads : (p : Parser) → Ensures (λ _ q. Reads p q) (fraction_part p)
unfolding fraction_part pure fail
fraction_part-Reads p = Ensures-bind _ _ p (take_if-Reads b'.' p) after
  where
    after :
        (dot : Bool) (q : Parser)
        → (if dot then Takes p q else Reads p q)
        → Ensures
            (λ _ r. Reads p r)
            ((if dot
                then (λ q.
                    if peek_is is_digit q then consume_digits q else fail Detail.missing_fraction q)
                else pure tt)
              q)
    after true q h =
        Ensures-if (peek_is is_digit q)
          (λ _.
            Ensures-imp (λ _ r. Reads p r) (consume_digits-Reads q) λ _ r k. holds (omega arith))
          (λ _. fails (cc))
    after false q h = holds h

exponent_part-Reads : (p : Parser) → Ensures (λ _ q. Reads p q) (exponent_part p)
unfolding exponent_part exponent_sign fail
exponent_part-Reads p =
    Ensures-if (peek_is (λ b. eqb b b'e' || eqb b b'E') p)
      (λ e.
        let first = Takes-advance 1 p (omega arith) (peek_is-pos _ p e) in
        Ensures-bind _ _ (advance 1 p) (exponent_sign-Reads (advance 1 p)) λ _ q h.
          Ensures-if (peek_is is_digit q)
            (λ _.
              Ensures-imp (λ _ r. Reads p r) (consume_digits-Reads q) λ _ r k. holds (omega arith))
            (λ _. fails (cc)))
      (λ _. holds (Reads-refl p))
  where
    exponent_sign-Reads : (q : Parser) → Ensures (λ _ r. Reads q r) (exponent_sign q)
    exponent_sign-Reads q =
        Ensures-if (peek_is (λ b. eqb b b'+' || eqb b b'-') q)
          (λ s. holds (Reads-advance 1 q (peek_is-pos _ q s))) (λ _. holds (Reads-refl q))

pub parse_number-Takes : (p : Parser) → Ensures (λ _ q. Takes p q) (parse_number p)
unfolding parse_number pure fail
parse_number-Takes p =
    Ensures-bind _ _ p
      (Ensures-bind _ _ p (take_if-Reads b'-' p) λ minus q h.
        Ensures-imp (λ _ r. Takes p r) (integer_part-Takes q) λ _ r k. holds (signed minus h k))
      λ _ q h. Ensures-bind _ _ q (fraction_part-Reads q) λ _ r k.
        Ensures-bind _ _ r (exponent_part-Reads r) λ _ s l.
          Ensures-if (is_utf8 (take (s.position - p.position) p.rest))
            (λ _. holds (Takes-Reads h (Reads-trans k l))) (λ _. fails (cc))
  where
    signed :
        (minus : Bool) {q r : Parser}
        → (if minus then Takes p q else Reads p q)
        → Takes q r
        → Takes p r
    signed true h k = omega arith
    signed false h k = Reads-Takes h k
