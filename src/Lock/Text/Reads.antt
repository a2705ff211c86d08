-- ===== src/Lock/Text/Reads.antt =====
-- When a reader takes a text off the lines, and how that composes.
use leanbun.Base.{
  ℕ, ◌+◌, ◌≤◌, ◌^◌, true, false, List, [], ◌∷◌, ◌++◌, append_assoc, length, ltb, eqb, Result, ok,
  bytes_equal, ==_refl, ◌≡◌, ◌≢◌, refl, All, All-append, Lacks, split_on-join_with, join_with,
  lines, lines-append, arith, display_nat, display_nat_lem, is_digit, all, lt→ltb, ltb-false,
  eqb_iff,
}
use leanbun.Lock.Model.{Text}
use leanbun.Lock.Hex.{IsToken}
use leanbun.Lock.Text.Encode.{line, encode_each, encode_count}
use leanbun.Lock.Text.Parse.{
  ReaderOf, ◌⇒◌, checked, expect, expect_parts, repeat, read_count, parse_usize,
}

-- whatever follows the text, the reader returns the value and leaves the lines of what follows; the
-- text holds no carriage return
pub record Reads {E A : Type 0} (read : ReaderOf E A) (text : Text) (a : A) : Type 0 where
  pub on_lines : (rest : Text) → read (lines (text ++ rest)) ≡ ok (a, lines rest)
  pub no_return : Lacks 13 text

module _ {E A B : Type 0} where
  -- one reader after the other
  pub Reads-⇒ :
      (next : A → ReaderOf E B) {read : ReaderOf E A} {text further : Text} {a : A} {b : B}
      → Reads read text a
      → Reads (next a) further b
      → Reads (read ⇒ next) (text ++ further) b
  unfolding ◌⇒◌
  Reads-⇒ next {text = text} {further = further} h k = record {
    on_lines =
        λ rest. rw (append_assoc text further rest, h.on_lines (further ++ rest)) (k.on_lines rest);
    no_return = All-append (λ b. b ≢ 13) text further h.no_return k.no_return;
  }

  pub Reads-checked :
      (next : A → ReaderOf E B) {made : Result E A} {text : Text} {a : A} {b : B}
      → made ≡ ok a
      → Reads (next a) text b
      → Reads (checked made ⇒ next) text b
  unfolding ◌⇒◌
  Reads-checked next h k = record {
    on_lines = λ rest. rw h (k.on_lines rest);
    no_return = k.no_return;
  }

-- a reader followed by a value that reads nothing
module _ {E A B : Type 0} where
  pub Reads-last :
      (read : ReaderOf E A) (next : A → Result E B) (text : Text) (a : A) (b : B)
      → Reads read text a
      → next a ≡ ok b
      → Reads (read ⇒ λ x. checked (next x)) text b
  unfolding ◌⇒◌
  Reads-last read next text a b h k = record {
    on_lines = λ rest. rw (h.on_lines rest, k) refl;
    no_return = h.no_return;
  }

pub Reads-repeat :
    {E A : Type 0} (read : ReaderOf E A) (encode : A → Text) (items : List A)
    → All (λ a. Reads read (encode a) a) items
    → Reads (repeat (length items) read) (encode_each encode items) items
unfolding repeat encode_each ◌⇒◌
Reads-repeat read encode [] h = record { on_lines = λ rest. refl; no_return = tt }
Reads-repeat read encode (a ∷ items) h =
    let others = Reads-repeat read encode items h.1 in
    record {
      on_lines = λ rest.
          rw
            (
              append_assoc (encode a) (encode_each encode items) rest,
              h.0.on_lines (encode_each encode items ++ rest),
              others.on_lines rest,
            )
            refl;
      no_return =
          All-append (λ b. b ≢ 13) (encode a) (encode_each encode items) h.0.no_return
            others.no_return;
    }

token-Lacks : (separator : ℕ) (text : Text) → separator ≤ 32 → IsToken text → Lacks separator text
token-Lacks separator [] small h = tt
token-Lacks separator (b ∷ text) small h =
    (λ e. omega (arith, h.0), token-Lacks separator text small h.1)

tokens-Lacks :
    (separator : ℕ) (parts : List Text)
    → separator ≤ 32
    → All IsToken parts
    → All (Lacks separator) parts
tokens-Lacks separator [] small h = tt
tokens-Lacks separator (part ∷ parts) small h =
    (token-Lacks separator part small h.0, tokens-Lacks separator parts small h.1)

-- joined tokens hold no other separator
join_with-Lacks :
    (separator : ℕ) (parts : List Text)
    → 9 ≢ separator
    → All (Lacks separator) parts
    → Lacks separator (join_with 9 parts)
unfolding join_with
join_with-Lacks separator [] other h = tt
join_with-Lacks separator (part ∷ []) other h = h.0
join_with-Lacks separator (part ∷ next ∷ rest) other h =
    All-append (λ b. b ≢ separator) part (9 ∷ join_with 9 (next ∷ rest)) h.0
      (other, join_with-Lacks separator (next ∷ rest) other h.1)

module _ (label : Text) (values : List Text) (tokens : All IsToken (label ∷ values)) where
  -- a line holds no carriage return
  line-Lacks : Lacks 13 (line label values)
  unfolding line
  line-Lacks =
      All-append (λ b. b ≢ 13) (join_with 9 (label ∷ values)) (10 ∷ [])
        (join_with-Lacks 13 (label ∷ values) (λ e. omega (arith, e))
          (tokens-Lacks 13 (label ∷ values) (omega arith) tokens))
        ((λ e. omega (arith, e)), tt)

  pub Reads-expect : (n : ℕ) → length values ≡ n → Reads (expect label n) (line label values) values
  unfolding line expect expect_parts
  Reads-expect n size = record {
    on_lines = λ rest.
        rw
          (
            append_assoc (join_with 9 (label ∷ values)) (10 ∷ []) rest,
            lines-append (join_with 9 (label ∷ values)) rest (
                join_with-Lacks 10 (label ∷ values) (λ e. omega (arith, e))
                  (tokens-Lacks 10 (label ∷ values) (omega arith) tokens)),
            split_on-join_with 9 label values
                (tokens-Lacks 9 (label ∷ values) (omega arith) tokens),
            ==_refl label,
            counted,
          )
          refl;
    no_return = line-Lacks;
  }
    where
      counted : eqb (length (label ∷ values)) (n + 1) ≡ true
      counted = (eqb_iff _ _).1 (omega (arith, size))

-- a literal is a token by evaluation
pub IsToken-of_all : (text : Text) → all (ltb 32) text ≡ true → IsToken text
IsToken-of_all [] h = tt
IsToken-of_all (b ∷ text) h = (ground arith, IsToken-of_all text (ground arith))

digits-IsToken : (text : Text) → all is_digit text ≡ true → IsToken text
digits-IsToken [] h = tt
digits-IsToken (b ∷ text) h = (ground arith, digits-IsToken text (ground arith))

pub display_nat-IsToken : (n : ℕ) → IsToken (display_nat n)
display_nat-IsToken n = digits-IsToken (display_nat n) (display_nat_lem n).1

pub parse_usize-display_nat : (n : ℕ) → n ≤ 4096 → parse_usize (display_nat n) ≡ ok n
unfolding parse_usize
parse_usize-display_nat n small =
    let (value, digits, leading, size) = display_nat_lem n in
    let some_digit : eqb (length (display_nat n)) 0 ≡ false = ground (arith, size) in
    let fits : ltb n (2 ^ 64) ≡ true = lt→ltb n (2 ^ 64) (omega arith) in
    rw (some_digit, leading, digits, value, fits) refl

pub Reads-read_count :
    (label : Text) (n : ℕ)
    → all (ltb 32) label ≡ true
    → n ≤ 4096
    → Reads (read_count label) (encode_count label n) n
unfolding read_count encode_count ◌⇒◌
Reads-read_count label n literal small =
    let header =
      Reads-expect label (display_nat n ∷ [])
        (IsToken-of_all label literal, (display_nat-IsToken n, tt)) 1 refl in
    record {
      on_lines = λ rest.
          rw (header.on_lines rest, parse_usize-display_nat n small, ltb-false 4096 n small) refl;
      no_return = header.no_return;
    }
