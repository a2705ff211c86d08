-- ===== src/Base/Split.antt =====
-- `split` at a separator, `lines`, and their inverses.
use Prim.Native.Nat.{ℕ}
use mathlib.Core.Path.{◌≡◌, refl, sym, ap, ◌∙◌, subst}
use mathlib.Core.Logic.{inl, inr, ◌≢◌}
use mathlib.Core.Bool.{Bool, true, false, not, ◌&&◌, ◌||◌}
use mathlib.Core.List.{List, [], ◌∷◌, ◌++◌}
use native.Mathlib.Omega.{arith}
use leanbun.Base.Lists.{All, length, any, all}
use leanbun.Base.Equality.{◌==◌, bytes_equal}
use leanbun.Base.Tests.{eqb, eqb_iff, Bool-cases, if◌then◌else◌}

-- a byte that is put before the first of the parts
unfoldable pub extend_first : ℕ → List (List ℕ) → List (List ℕ)
extend_first b [] = (b ∷ []) ∷ []
extend_first b (part ∷ parts) = (b ∷ part) ∷ parts

-- `value.split(separator)`
unfoldable pub split_on : ℕ → List ℕ → List (List ℕ)
unfolding extend_first
split_on separator [] = [] ∷ []
split_on separator (b ∷ rest) =
    let parts = split_on separator rest in
    if eqb b separator then [] ∷ parts else extend_first b parts

-- `text.lines()` for a text without carriage returns
unfoldable pub lines : List ℕ → List (List ℕ)
unfolding extend_first
lines [] = []
lines (b ∷ rest) =
    let further = lines rest in if eqb b 10 then [] ∷ further else extend_first b further

-- `text.lines()`: a carriage return before a line feed is part of the line's end
unfoldable pub lines_of : List ℕ → List (List ℕ)
unfolding extend_first
lines_of [] = []
lines_of (b ∷ rest) =
    let further = lines_of rest in
    if eqb b 10
    then [] ∷ further
    else if eqb b 13 && starts_line_end rest
    then further
    else extend_first b further
  where
    starts_line_end : List ℕ → Bool
    starts_line_end [] = false
    starts_line_end (c ∷ rest) = eqb c 10

-- the parts with the separator between any two
unfoldable pub join_with : ℕ → List (List ℕ) → List ℕ
join_with separator [] = []
join_with separator (part ∷ []) = part
join_with separator (part ∷ next ∷ rest) = part ++ separator ∷ join_with separator (next ∷ rest)

-- no byte is the separator
abbrev pub Lacks : ℕ → List ℕ → Type 0
Lacks separator part = All (λ b. b ≢ separator) part

pub eqb-ne : (a b : ℕ) → a ≢ b → eqb a b ≡ false
eqb-ne a b h = elim (Bool-cases (eqb a b)) [ inl e ↦ absurd (h ((eqb_iff a b).0 e)) | inr e ↦ e ]

join_with-extend_first :
    (s b : ℕ) (parts : List (List ℕ)) → join_with s (extend_first b parts) ≡ b ∷ join_with s parts
unfolding join_with extend_first
join_with-extend_first s b [] = refl
join_with-extend_first s b (part ∷ []) = refl
join_with-extend_first s b (part ∷ next ∷ rest) = refl

pub split_on_nonempty :
    (s : ℕ) (value : List ℕ)
    → (part : List ℕ) × (rest : List (List ℕ)) × (split_on s value ≡ part ∷ rest)
unfolding split_on extend_first
split_on_nonempty s [] = ([], [], refl)
split_on_nonempty s (b ∷ value) =
    let (part, rest, e) = split_on_nonempty s value in
    elim (Bool-cases (eqb b s)) [
      | inl here ↦ ([], split_on s value, ground arith)
      | inr other ↦ (b ∷ part, rest, ground arith)
    ]

pub join_with-split_on : (s : ℕ) (value : List ℕ) → join_with s (split_on s value) ≡ value
unfolding split_on join_with
join_with-split_on s [] = refl
join_with-split_on s (b ∷ value) =
    let (part, rest, e) = split_on_nonempty s value in
    elim (Bool-cases (eqb b s)) [
      | inl here ↦
          let same : b ≡ s = (eqb_iff b s).0 here in ground (arith, join_with-split_on s value)
      | inr other ↦ rw other (
          join_with-extend_first s b (split_on s value)
          ∙ ap (λ t. b ∷ t) (join_with-split_on s value))
    ]

extend_first-Lacks :
    (s b : ℕ) (parts : List (List ℕ))
    → b ≢ s
    → All (Lacks s) parts
    → All (Lacks s) (extend_first b parts)
unfolding extend_first
extend_first-Lacks s b [] ne h = ((ne, tt), tt)
extend_first-Lacks s b (part ∷ parts) ne h = ((ne, h.0), h.1)

-- no part holds the separator
pub All-Lacks-split_on : (s : ℕ) (value : List ℕ) → All (Lacks s) (split_on s value)
unfolding split_on
All-Lacks-split_on s [] = (tt, tt)
All-Lacks-split_on s (b ∷ value) = elim (Bool-cases (eqb b s)) [
  | inl here ↦ subst (All (Lacks s)) (sym (branch true here)) (tt, All-Lacks-split_on s value)
  | inr other ↦ subst (All (Lacks s)) (sym (branch false other)) (
      extend_first-Lacks s b (split_on s value) (λ e. cc ((eqb_iff b s).1 e, other))
        (All-Lacks-split_on s value))
]
  where
    branch :
        (t : Bool)
        → eqb b s ≡ t
        → split_on s (b ∷ value)
          ≡ (if t then [] ∷ split_on s value else extend_first b (split_on s value))
    branch t e = rw e refl

-- a part without the separator, then the separator
split_on-append :
    (s : ℕ) (part rest : List ℕ)
    → Lacks s part
    → split_on s (part ++ s ∷ rest) ≡ part ∷ split_on s rest
unfolding split_on extend_first
split_on-append s [] rest h = rw ((eqb_iff s s).1 refl)
split_on-append s (b ∷ part) rest h = rw (eqb-ne b s h.0, split_on-append s part rest h.1)

pub split_on-Lacks : (s : ℕ) (part : List ℕ) → Lacks s part → split_on s part ≡ part ∷ []
unfolding split_on extend_first
split_on-Lacks s [] h = refl
split_on-Lacks s (b ∷ part) h = rw (eqb-ne b s h.0, split_on-Lacks s part h.1)

pub split_on-join_with :
    (s : ℕ) (first : List ℕ) (rest : List (List ℕ))
    → All (Lacks s) (first ∷ rest)
    → split_on s (join_with s (first ∷ rest)) ≡ first ∷ rest
unfolding join_with
split_on-join_with s first [] h = split_on-Lacks s first h.0
split_on-join_with s first (next ∷ rest) h =
    split_on-append s first (join_with s (next ∷ rest)) h.0
    ∙ ap (λ t. first ∷ t) (split_on-join_with s next rest h.1)

pub lines-append :
    (line rest : List ℕ) → Lacks 10 line → lines (line ++ 10 ∷ rest) ≡ line ∷ lines rest
unfolding lines extend_first
lines-append [] rest h = refl
lines-append (b ∷ line) rest h = rw (eqb-ne b 10 h.0, lines-append line rest h.1)

-- `part.is_empty() || matches!(part, "." | "..")`
unfoldable pub is_bad_part : List ℕ → Bool
unfolding bytes_equal
is_bad_part part = eqb (length part) 0 || part == (b'.' ∷ []) || part == (b'.' ∷ b'.' ∷ [])

-- a name of a file or a directory below the current one
abbrev pub IsName : List ℕ → Type 0
IsName part = (part ≢ []) × (part ≢ b'.' ∷ []) × (part ≢ b'.' ∷ b'.' ∷ [])

is_bad_part-IsName : (part : List ℕ) → is_bad_part part ≡ false → IsName part
unfolding is_bad_part
is_bad_part-IsName part h = (λ e. ground (arith, e), λ e. ground (arith, e), λ e. ground (arith, e))

pub names_of_parts : (parts : List (List ℕ)) → any is_bad_part parts ≡ false → All IsName parts
names_of_parts [] h = tt
names_of_parts (part ∷ rest) h =
    (is_bad_part-IsName part (ground arith), names_of_parts rest (ground arith))

extend_first-append :
    (b : ℕ) (xs ys : List (List ℕ)) (part : List ℕ) (rest : List (List ℕ))
    → xs ≡ part ∷ rest
    → extend_first b (xs ++ ys) ≡ extend_first b xs ++ ys
unfolding extend_first
extend_first-append b xs ys part rest e = rw e refl

-- the parts of two values with the separator between them
pub split_on-append_both :
    (s : ℕ) (a b : List ℕ) → split_on s (a ++ s ∷ b) ≡ split_on s a ++ split_on s b
unfolding split_on
split_on-append_both s [] b = rw ((eqb_iff s s).1 refl) refl
split_on-append_both s (x ∷ a) b =
    let (part, rest, e) = split_on_nonempty s a in
    elim (Bool-cases (eqb x s)) [
      | inl here ↦ rw (here, split_on-append_both s a b) refl
      | inr other ↦
          rw (other, split_on-append_both s a b)
            (extend_first-append x (split_on s a) (split_on s b) part rest e)
    ]

pub names_of_not_bad :
    (parts : List (List ℕ)) → all (λ part. not (is_bad_part part)) parts ≡ true → All IsName parts
names_of_not_bad [] h = tt
names_of_not_bad (part ∷ rest) h =
    let (here, further) = both (is_bad_part part) (all (λ p. not (is_bad_part p)) rest) h in
    (is_bad_part-IsName part here, names_of_not_bad rest further)
  where
    both : (p q : Bool) → (not p && q) ≡ true → (p ≡ false) × (q ≡ true)
    both p q t = (ground arith, ground arith)

-- without carriage returns the two agree
pub lines_of-lines : (text : List ℕ) → Lacks 13 text → lines_of text ≡ lines text
unfolding lines_of lines
lines_of-lines [] h = refl
lines_of-lines (b ∷ rest) h = rw (eqb-ne b 13 h.0, lines_of-lines rest h.1) refl
