-- ===== src/Lock/Text/Whole.antt =====
-- Readers of a whole text, and what holds of all that a reader returns.
use leanbun.Base.{
  ℕ, Bool, true, false, List, [], ◌∷◌, ◌++◌, not, ok, >>=-eq-ok, bytes_equal, ◌≡◌, ◌≢◌, All-append,
  Lacks, lines, ends_with, starts_with, arith,
}
use leanbun.Lock.Model.{Text}
use leanbun.Lock.Text.Parse.{ReaderOf, ◌⇒◌}
use leanbun.Lock.Text.Reads.{Reads}

-- the reader takes the whole text, which is one that `parse_lock` looks into
pub record Finishes {E A : Type 0} (read : ReaderOf E A) (text : Text) (a : A) : Type 0 where
  pub on_lines : read (lines text) ≡ ok (a, [])
  pub no_return : Lacks 13 text
  pub ends : ends_with (10 ∷ []) text ≡ true

ends_with-cons :
    (b : ℕ) (text : Text) → ends_with (10 ∷ []) text ≡ true → ends_with (10 ∷ []) (b ∷ text) ≡ true
unfolding ends_with starts_with
ends_with-cons b [] h = cc
ends_with-cons b (c ∷ text) h = ground (arith, h)

ends_with-append :
    (first further : Text)
    → ends_with (10 ∷ []) further ≡ true
    → ends_with (10 ∷ []) (first ++ further) ≡ true
ends_with-append [] further h = h
ends_with-append (b ∷ first) further h =
    ends_with-cons b (first ++ further) (ends_with-append first further h)

pub Finishes-⇒ :
    {E A B : Type 0} (next : A → ReaderOf E B) {read : ReaderOf E A} {text further : Text} {a : A}
    {b : B}
    → Reads read text a
    → Finishes (next a) further b
    → Finishes (read ⇒ next) (text ++ further) b
unfolding ◌⇒◌
Finishes-⇒ next {text = text} {further = further} h k = record {
  on_lines = rw (h.on_lines further) k.on_lines;
  no_return = All-append (λ b. b ≢ 13) text further h.no_return k.no_return;
  ends = ends_with-append text further k.ends;
}

pub not-false : (b : Bool) → not b ≡ false → b ≡ true
not-false b h = ground arith

-- every value that the reader returns is so
pub record Yields {E A : Type 0} (read : ReaderOf E A) (P : A → Type 0) : Type 0 where
  pub holds : (state rest : List Text) (a : A) → read state ≡ ok (a, rest) → P a

pub Yields-⇒ :
    {E A B : Type 0} {P : B → Type 0} (read : ReaderOf E A) (next : A → ReaderOf E B)
    → ((a : A) → Yields (next a) P)
    → Yields (read ⇒ next) P
unfolding ◌⇒◌
Yields-⇒ read next h = record {
  holds = λ state rest b e.
      let ((a, further), taken, k) = >>=-eq-ok (read state) _ e in (h a).holds further rest b k;
}
