-- ===== src/Resolver/Relative.antt =====
-- What a relative path that is accepted looks like.
use leanbun.Base.{
  Bool, false, ◌&&◌, ◌||◌, List, [], ◌∷◌, ◌≡◌, ◌≢◌, sym, ap, ◌∙◌, length, any, All, eqb, eqb_iff,
  arith, ok, >>=-eq-ok, reject_if, reject_if-eq-ok, subst, leb, get_or, is_bad_part, IsName,
  names_of_parts, Lacks, All-Lacks-split_on, split_on, split_on_nonempty, join_with,
  join_with-split_on,
}
use leanbun.Lock.Model.{Text}
use leanbun.Resolver.Model.{ErrorKind, error}
use leanbun.Resolver.Fields.{validate_text, validate_relative_path, starts_with_slash}

no_backslash : (value : Text) → any (λ b. eqb b b'\\') value ≡ false → All (λ b. b ≢ b'\\') value
no_backslash [] h = tt
no_backslash (b ∷ rest) h = (
  λ e. cc ((eqb_iff b b'\\').1 e, first_of (eqb b b'\\') (any (λ c. eqb c b'\\') rest) h),
  no_backslash rest (second_of (eqb b b'\\') (any (λ c. eqb c b'\\') rest) h),
)
  where
    first_of : (p q : Bool) → (p || q) ≡ false → p ≡ false
    first_of p q x = ground arith

    second_of : (p q : Bool) → (p || q) ≡ false → q ≡ false
    second_of p q x = ground arith

All-both :
    (parts : List Text)
    → All IsName parts
    → All (Lacks b'/') parts
    → All (λ name. IsName name × Lacks b'/' name) parts
All-both [] h k = tt
All-both (part ∷ parts) h k = ((h.0, k.0), All-both parts h.1 k.1)

no_drive :
    (value : Text)
    → (leb 2 (length value) && eqb (get_or value 1 0) b':') ≡ false
    → get_or value 1 0 ≢ b':'
no_drive [] h e = omega arith
no_drive (a ∷ []) h e = omega arith
no_drive (a ∷ b ∷ rest) h e = ground arith

-- A relative path that is accepted is one or more names joined by slashes, so that it stays below the
-- directory it is taken from: no name is empty, "." or "..", and none holds a slash. No byte is a
-- backslash, and the second byte is no colon.
pub validate_relative_path-names :
    (value : Text) (u : Unit {0})
    → validate_relative_path value ≡ ok u
    → (first : Text) × (rest : List Text) × (join_with b'/' (first ∷ rest) ≡ value)
      × All (λ name. IsName name × Lacks b'/' name) (first ∷ rest)
      × Lacks b'\\' value
      × (get_or value 1 0 ≢ b':')
unfolding validate_relative_path
validate_relative_path-names value u h =
    let (v, text, tested) =
      >>=-eq-ok (validate_text value) (λ _. reject_if bad (error ErrorKind.invalid_field)) h in
    let (backslash, parts, drive) =
      each (starts_with_slash value) (any (λ b. eqb b b'\\') value)
        (any is_bad_part (split_on b'/' value))
        (leb 2 (length value) && eqb (get_or value 1 0) b':')
        (reject_if-eq-ok bad (error ErrorKind.invalid_field) tested) in
    let (first, rest, e) = split_on_nonempty b'/' value in
    let names : All (λ name. IsName name × Lacks b'/' name) (split_on b'/' value) =
      All-both (split_on b'/' value) (names_of_parts (split_on b'/' value) parts)
        (All-Lacks-split_on b'/' value) in
    (
      first,
      rest,
      ap (join_with b'/') (sym e) ∙ join_with-split_on b'/' value,
      subst (All (λ name. IsName name × Lacks b'/' name)) e names,
      no_backslash value backslash,
      no_drive value drive,
    )
  where
    bad : Bool
    bad =
        starts_with_slash value
        || any (λ b. eqb b b'\\') value
        || any is_bad_part (split_on b'/' value)
        || leb 2 (length value) && eqb (get_or value 1 0) b':'

    each : (p q r s : Bool) → (p || q || r || s) ≡ false → (q ≡ false) × (r ≡ false) × (s ≡ false)
    each p q r s x = (ground arith, ground arith, ground arith)
