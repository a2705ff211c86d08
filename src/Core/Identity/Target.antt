-- ===== src/Core/Identity/Target.antt =====
-- What `valid_build_target` accepts.
use leanbun.Base.{
  ℕ, ◌<◌, ◌≤◌, ◌≡◌, ◌≢◌, ◌↔◌, refl, ap, Bool, true, false, not, ◌&&◌, List, [], ◌∷◌, ◌++◌, any, All,
  eqb, leb, ltb, arith, Bool-cases, inl, inr, lt→ltb, le→leb, ltb→lt, leb→le,
}
use leanbun.Core.Identity.{
  valid_build_target, utf16_length, starts_with_dash, contains_dots, is_control,
}

pub record IsTarget (value : List ℕ) : Type 0 where
  pub nonempty : 0 < utf16_length value
  pub short : utf16_length value ≤ 256
  pub no_option : (rest : List ℕ) → value ≢ b'-' ∷ rest
  pub no_parent : (pre post : List ℕ) → value ≢ pre ++ b'.' ∷ b'.' ∷ post
  pub printable : All (λ c. (0x1f < c) × (c ≢ 0x7f)) value

contains_dots-append : (pre post : List ℕ) → contains_dots (pre ++ b'.' ∷ b'.' ∷ post) ≡ true
unfolding contains_dots
contains_dots-append [] post = refl
contains_dots-append (a ∷ []) post = ground (arith, contains_dots-append [] post)
contains_dots-append (a ∷ b ∷ pre) post = ground (arith, contains_dots-append (b ∷ pre) post)

contains_dots_split :
    (cs : List ℕ)
    → contains_dots cs ≡ true
    → (pre : List ℕ) × (post : List ℕ) × (cs ≡ pre ++ b'.' ∷ b'.' ∷ post)
unfolding contains_dots
contains_dots_split [] h = cc
contains_dots_split (a ∷ []) h = cc
contains_dots_split (a ∷ b ∷ cs) h = elim (Bool-cases (eqb a b'.' && eqb b b'.')) [
  | inl here ↦ ([], cs, ground arith)
  | inr there ↦
      let (pre, post, e) = contains_dots_split (b ∷ cs) (rw there at h) in
      (a ∷ pre, post, ap (λ t. a ∷ t) e)
]

no_control : (cs : List ℕ) → (any is_control cs ≡ false) ↔ All (λ c. (0x1f < c) × (c ≢ 0x7f)) cs
unfolding is_control
no_control [] = (λ _. tt, λ _. refl)
no_control (c ∷ cs) =
    let ih = no_control cs in (λ h. ground (arith, ih.0), λ h. ground (arith, ih.1))

no_dash : (cs : List ℕ) → (starts_with_dash cs ≡ false) ↔ ((rest : List ℕ) → cs ≢ b'-' ∷ rest)
unfolding starts_with_dash
no_dash [] = (λ h rest. cc, λ _. refl)
no_dash (c ∷ cs) = (λ h rest e. ground arith, λ h. ground (arith, h cs))

no_dots :
    (cs : List ℕ)
    → (contains_dots cs ≡ false) ↔ ((pre post : List ℕ) → cs ≢ pre ++ b'.' ∷ b'.' ∷ post)
no_dots cs = (
  λ h pre post e. cc (h, ap contains_dots e, contains_dots-append pre post),
  λ h. elim (Bool-cases (contains_dots cs)) [
    | inl found ↦ let (pre, post, e) = contains_dots_split cs found in absurd (h pre post e)
    | inr none_found ↦ none_found
  ],
)

-- A build target is accepted exactly when it has 1 to 256 UTF-16 units, does not begin with a dash,
-- nowhere holds two dots in a row, and holds no ASCII control character: none up to 0x1f, and not 0x7f.
pub valid_build_target_iff : (value : List ℕ) → (valid_build_target value ≡ true) ↔ IsTarget value
unfolding valid_build_target
valid_build_target_iff value = (
  λ h.
      let (a, b, c, d, e) =
        parts (ltb 0 (utf16_length value)) (leb (utf16_length value) 256) (starts_with_dash value)
          (contains_dots value) (any is_control value) h in
      record {
        nonempty = ltb→lt _ _ a;
        short = leb→le _ _ b;
        no_option = (no_dash value).0 c;
        no_parent = (no_dots value).0 d;
        printable = (no_control value).0 e;
      },
  λ t.
      let a : ltb 0 (utf16_length value) ≡ true = lt→ltb _ _ t.nonempty in
      let b : leb (utf16_length value) 256 ≡ true = le→leb _ _ t.short in
      rw (
        a,
        b,
        (no_dash value).1 t.no_option,
        (no_dots value).1 t.no_parent,
        (no_control value).1 t.printable,
      ),
)
  where
    parts :
        (a b c d e : Bool)
        → (a && b && not c && not d && not e) ≡ true
        → (a ≡ true) × (b ≡ true) × (c ≡ false) × (d ≡ false) × (e ≡ false)
    parts a b c d e h = ground arith
