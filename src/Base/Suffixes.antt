-- ===== src/Base/Suffixes.antt =====
-- What a suffix without the separator does to `split` and to `split_once`.
use Prim.Native.Nat.{ℕ, zero, suc, ◌≤◌, ◌-◌}
use mathlib.Core.Path.{◌≡◌, refl, sym, ap, ◌∙◌, subst}
use mathlib.Core.Logic.{inl, inr, ◌≢◌}
use mathlib.Core.Bool.{Bool, true, false, ◌||◌, ◌&&◌}
use mathlib.Core.List.{List, [], ◌∷◌, ◌++◌, append-nil}
use mathlib.Core.Option.{Option, none, some}
use native.Mathlib.Omega.{arith}
use leanbun.Base.Lists.{length, any, take, drop, length-drop, take-append-drop}
use leanbun.Base.Equality.{◌==◌, ==_iff, bytes_equal}
use leanbun.Base.Tests.{eqb, eqb_iff, Bool-cases, leb, leb→le}
use leanbun.Base.Chars.{
  strip_prefix, split_once, extend_pair, has_control, ends_with, starts_with, starts_with-append,
}
use leanbun.Base.Split.{split_on, extend_first, Lacks, eqb-ne, split_on-Lacks, is_bad_part}

Lacks-not : (s : ℕ) (a b : List ℕ) → Lacks s (a ++ s ∷ b) → ⊥
Lacks-not s [] b h = h.0 refl
Lacks-not s (x ∷ a) b h = Lacks-not s a b h.1

-- a separator stands before a suffix that has none
pub before_suffix :
    (s : ℕ) (a b u suffix : List ℕ)
    → Lacks s suffix
    → a ++ s ∷ b ≡ u ++ suffix
    → (c : List ℕ) × (u ≡ a ++ s ∷ c) × (b ≡ c ++ suffix)
before_suffix s a b [] suffix h e = absurd (Lacks-not s a b (subst (Lacks s) (sym e) h))
before_suffix s [] b (x ∷ u) suffix h e = (u, cc, cc)
before_suffix s (y ∷ a) b (x ∷ u) suffix h e =
    let (c, before, after) = before_suffix s a b u suffix h (cc) in (c, cc, after)

pub split_once-some :
    (s : ℕ) (value left right : List ℕ)
    → split_once s value ≡ some (left, right)
    → (value ≡ left ++ s ∷ right) × Lacks s left
unfolding split_once extend_pair
split_once-some s [] left right e = cc
split_once-some s (b ∷ value) left right e = elim (Bool-cases (eqb b s)) [
  | inl here ↦
      let found : some ([], value) ≡ some (left, right) = rw here at e in
      let same : b ≡ s = (eqb_iff b s).0 here in
      let empty : [] ≡ left = cc in let tail : value ≡ right = cc in (cc, subst (Lacks s) empty tt)
  | inr other ↦
      let further : extend_pair b (split_once s value) ≡ some (left, right) = rw other at e in
      by_further other (split_once s value) (λ l r f. split_once-some s value l r f) refl further
]
  where
    by_further :
        eqb b s ≡ false
        → (o : Option (List ℕ × List ℕ))
        → ((l r : List ℕ) → split_once s value ≡ some (l, r) → (value ≡ l ++ s ∷ r) × Lacks s l)
        → split_once s value ≡ o
        → extend_pair b o ≡ some (left, right)
        → (b ∷ value ≡ left ++ s ∷ right) × Lacks s left
    by_further other none cut found f = cc
    by_further other (some (l, r)) cut found f =
        let (whole, lacks) = cut l r found in
        let head : b ∷ l ≡ left = cc in
        let tail : r ≡ right = cc in
        (
          ap (λ t. b ∷ t) whole ∙ ap (λ x. b ∷ l ++ s ∷ x) tail ∙ ap (λ x. x ++ s ∷ right) head,
          subst (Lacks s) head (λ q. cc ((eqb_iff b s).1 q, other), lacks),
        )

pub split_once-append :
    (s : ℕ) (left right : List ℕ)
    → Lacks s left
    → split_once s (left ++ s ∷ right) ≡ some (left, right)
unfolding split_once extend_pair
split_once-append s [] right h = rw ((eqb_iff s s).1 refl) refl
split_once-append s (b ∷ left) right h =
    rw (eqb-ne b s h.0, split_once-append s left right h.1) refl

-- a suffix without the separator comes to the last part
pub split_on-append_last :
    (s : ℕ) (value : List ℕ)
    → (init : List (List ℕ)) × (last : List ℕ) × ((suffix : List ℕ)
        → Lacks s suffix
        → split_on s (value ++ suffix) ≡ init ++ (last ++ suffix) ∷ [])
unfolding split_on extend_first
split_on-append_last s [] = ([], [], λ suffix h. split_on-Lacks s suffix h)
split_on-append_last s (b ∷ value) =
    let (init, last, parts) = split_on-append_last s value in
    elim (Bool-cases (eqb b s)) [
      | inl here ↦ ([] ∷ init, last, λ suffix h. rw (here, parts suffix h) refl)
      | inr other ↦ grown other init last parts
    ]
  where
    grown :
        eqb b s ≡ false
        → (init : List (List ℕ)) (last : List ℕ)
        → ((suffix : List ℕ)
            → Lacks s suffix
            → split_on s (value ++ suffix) ≡ init ++ (last ++ suffix) ∷ [])
        → (more : List (List ℕ)) × (end : List ℕ) × ((suffix : List ℕ)
            → Lacks s suffix
            → split_on s (b ∷ value ++ suffix) ≡ more ++ (end ++ suffix) ∷ [])
    grown other [] last parts = ([], b ∷ last, λ suffix h. rw (other, parts suffix h) refl)
    grown other (part ∷ init) last parts =
        ((b ∷ part) ∷ init, last, λ suffix h. rw (other, parts suffix h) refl)

pub is_bad_part-long : (part : List ℕ) → 3 ≤ length part → is_bad_part part ≡ false
unfolding is_bad_part
is_bad_part-long part h =
    rw
      (
        other (b'.' ∷ []) (λ e. omega (arith, ap (λ (t : List ℕ). length t) e)),
        other (b'.' ∷ b'.' ∷ []) (λ e. omega (arith, ap (λ (t : List ℕ). length t) e)),
        eqb-ne (length part) 0 (λ e. omega (arith, e)),
      )
      refl
  where
    other : (t : List ℕ) → part ≢ t → (part == t) ≡ false
    other t ne = elim (Bool-cases (part == t)) [
      | inl e ↦ absurd (ne ((==_iff part t).0 e))
      | inr e ↦ e
    ]

pub any-append_left :
    (test : ℕ → Bool) (value suffix : List ℕ)
    → any test (value ++ suffix) ≡ false
    → any test value ≡ false
any-append_left test [] suffix h = refl
any-append_left test (b ∷ value) suffix h =
    let (here, later) = both (test b) (any test (value ++ suffix)) h in
    rw (here, any-append_left test value suffix later) refl
  where
    both : (x y : Bool) → (x || y) ≡ false → (x ≡ false) × (y ≡ false)
    both x y t = (ground arith, ground arith)

pub has_control-append_left :
    (value suffix : List ℕ) → has_control (value ++ suffix) ≡ false → has_control value ≡ false
unfolding has_control
has_control-append_left [] suffix h = refl
has_control-append_left (a ∷ []) [] h = h
has_control-append_left (a ∷ []) (b ∷ suffix) h = ground arith
has_control-append_left (a ∷ b ∷ value) suffix h =
    ground (arith, has_control-append_left (b ∷ value) suffix)

drop_all : (n : ℕ) (xs : List ℕ) → length xs ≤ n → drop n xs ≡ []
drop_all zero [] fits = refl
drop_all zero (x ∷ xs) fits = absurd (omega arith)
drop_all (suc n) [] fits = refl
drop_all (suc n) (x ∷ xs) fits = drop_all n xs (omega arith)

-- what ends with a suffix is something and the suffix
pub ends_with-append :
    (suffix value : List ℕ)
    → ends_with suffix value ≡ true
    → take (length value - length suffix) value ++ suffix ≡ value
unfolding ends_with
ends_with-append suffix value h =
    let (fits, starts) =
      both (leb (length suffix) (length value))
        (starts_with suffix (drop (length value - length suffix) value)) h in
    let tail = drop (length value - length suffix) value in
    let size : length tail ≡ length suffix =
      omega (arith, length-drop (length value - length suffix) value, leb→le _ _ fits) in
    let whole : suffix ++ drop (length suffix) tail ≡ tail =
      starts_with-append suffix tail starts in
    let same : suffix ≡ tail =
      sym (append-nil suffix)
      ∙ ap (λ x. suffix ++ x) (sym (drop_all (length suffix) tail (omega (arith, size))))
      ∙ whole in
    ap (λ x. take (length value - length suffix) value ++ x) same
    ∙ take-append-drop (length value - length suffix) value
  where
    both : (x y : Bool) → (x && y) ≡ true → (x ≡ true) × (y ≡ true)
    both x y t = (ground arith, ground arith)

pub strip_prefix-some :
    (prefix value rest : List ℕ) → strip_prefix prefix value ≡ some rest → value ≡ prefix ++ rest
unfolding strip_prefix
strip_prefix-some prefix value rest h = elim (Bool-cases (starts_with prefix value)) [
  | inl yes_starts ↦
      let found : some (drop (length prefix) value) ≡ some rest = rw yes_starts at h in
      let same : drop (length prefix) value ≡ rest = cc (found) in
      sym (starts_with-append prefix value yes_starts) ∙ ap (λ x. prefix ++ x) same
  | inr no_start ↦ let found : none ≡ some rest = rw no_start at h in cc (found)
]

pub any-append_cases :
    {A : Type 0} (test : A → Bool) (xs ys : List A)
    → any test (xs ++ ys) ≡ (any test xs || any test ys)
any-append_cases test [] ys = refl
any-append_cases test (x ∷ xs) ys = ground (arith, any-append_cases test xs ys)
