-- ===== src/Lock/Urls.antt =====
-- CanonicalSourceUrlV1::parse, applied again to what it returns.
use leanbun.Base.{
  ◌-◌, ◌<◌, ◌≡◌, ◌≢◌, refl, sym, ap, subst, ◌∙◌, Bool-cases, inl, inr, ◌||◌, any, [], ◌∷◌, ◌++◌,
  Option, none, some, ok, >>=-eq-ok, reject_if-eq-ok, true, false, arith, length, take, length-take,
  bytes, ends_with, starts_with, strip_prefix, ◌≤◌, split_once, split_on, is_bad_part, eqb, Lacks,
  before_suffix, split_once-some, split_once-append, split_on-append_last, is_bad_part-long,
  any-append_left, has_control-append_left, ends_with-append, strip_prefix-some, any-append_cases,
  length-append, append_assoc,
}
use leanbun.Lock.Model.{Text, LockErrorKind}
use leanbun.Lock.Fields.{
  parse_url, parse_remainder, parse_split_url, strip_git, validate_atom, is_bad_url,
  is_ascii_whitespace,
}

abbrev scheme : Text
scheme = bytes "https://"

abbrev git : Text
git = bytes ".git"

-- what the parser has found of a text that it accepts
record IsUrl (value host path u : Text) : Type 0 where
  atom : validate_atom value 4096 false ≡ ok tt
  whole : value ≡ (scheme ++ host) ++ b'/' ∷ path
  host_lacks : Lacks b'/' host
  good : is_bad_url value host path ≡ false
  stripped : strip_git value ≡ u

parse_split_url_lem :
    (value : Text) (host path u : Text)
    → parse_split_url value (some (host, path)) ≡ ok u
    → (is_bad_url value host path ≡ false) × (strip_git value ≡ u)
unfolding parse_split_url
parse_split_url_lem value host path u h = (ground arith, ground arith)

parse_url-eq_ok :
    (value u : Text)
    → parse_url value ≡ ok u
    → (host : Text) × (path : Text) × IsUrl value host path u
unfolding parse_url parse_remainder parse_split_url
parse_url-eq_ok value u h =
    let (t, atom, rest) =
      >>=-eq-ok (validate_atom value 4096 false)
        (λ _. parse_remainder value (strip_prefix scheme value)) h in
    by_remainder atom (strip_prefix scheme value) refl rest
  where
    by_split :
        validate_atom value 4096 false ≡ ok tt
        → (r : Text) → value ≡ scheme ++ r
        → (parts : Option (Text × Text)) → split_once b'/' r ≡ parts
        → parse_split_url value parts ≡ ok u
        → (host : Text) × (path : Text) × IsUrl value host path u
    by_split atom r cut none e made = cc
    by_split atom r cut (some (host, path)) e made =
        let (good, stripped) = parse_split_url_lem value host path u made in
        let (joined, lacks) = split_once-some b'/' r host path e in
        (
          host,
          path,
          record {
            atom = atom;
            whole = cut ∙ ap (λ x. scheme ++ x) joined;
            host_lacks = lacks;
            good = good;
            stripped = stripped;
          },
        )

    by_remainder :
        validate_atom value 4096 false ≡ ok tt
        → (remainder : Option Text) → strip_prefix scheme value ≡ remainder
        → parse_remainder value remainder ≡ ok u
        → (host : Text) × (path : Text) × IsUrl value host path u
    by_remainder atom none e made = cc
    by_remainder atom (some r) e made =
        by_split atom r (strip_prefix-some scheme value r e) (split_once b'/' r) refl made

-- and such a text is accepted
parse_url-ok : (value host path u : Text) → IsUrl value host path u → parse_url value ≡ ok u
unfolding parse_url parse_remainder parse_split_url strip_prefix starts_with
parse_url-ok value host path u h =
    let scheme_off : strip_prefix scheme value ≡ some (host ++ b'/' ∷ path) =
      ap (strip_prefix scheme) h.whole in
    rw (h.atom, scheme_off, split_once-append b'/' host path h.host_lacks, h.good, h.stripped) refl

-- the last part with one ".git" more or less
parts_less_git :
    (path : Text)
    → any is_bad_part (split_on b'/' ((path ++ git) ++ git)) ≡ false
    → any is_bad_part (split_on b'/' (path ++ git)) ≡ false
parts_less_git path h =
    let (init, last, parts) = split_on-append_last b'/' path in
    let longer : split_on b'/' ((path ++ git) ++ git) ≡ init ++ (last ++ (git ++ git)) ∷ [] =
      ap (split_on b'/') (append_assoc path git git) ∙ parts (git ++ git) (omega arith) in
    let tested : (any is_bad_part init || any is_bad_part ((last ++ (git ++ git)) ∷ [])) ≡ false =
      sym (any-append_cases is_bad_part init ((last ++ (git ++ git)) ∷ []))
      ∙ ap (any is_bad_part) (sym longer)
      ∙ h in
    let good : is_bad_part (last ++ git) ≡ false =
      is_bad_part-long (last ++ git) (omega (arith, length-append last git)) in
    ap (any is_bad_part) (parts git (omega arith))
    ∙ any-append_cases is_bad_part init ((last ++ git) ∷ [])
    ∙ ground arith

is_bad_url-less_git :
    (u host path : Text)
    → is_bad_url (u ++ git) host ((path ++ git) ++ git) ≡ false
    → is_bad_url u host (path ++ git) ≡ false
unfolding is_bad_url
is_bad_url-less_git u host path h = ground (
  arith,
  parts_less_git path,
  any-append_left (λ b. eqb b b'#') u git,
  any-append_left (λ b. eqb b b'?') u git,
  any-append_left (λ b. eqb b b'%') u git,
  any-append_left (λ b. eqb b b'\\') u git,
  any-append_left is_ascii_whitespace u git,
)

validate_atom-less_git :
    (u : Text)
    → 0 < length u
    → validate_atom (u ++ git) 4096 false ≡ ok tt
    → validate_atom u 4096 false ≡ ok tt
unfolding validate_atom
validate_atom-less_git u pos h =
    let tested = reject_if-eq-ok _ LockErrorKind.invalid_field h in
    ground (arith, length-append u git, has_control-append_left u git)

strip_git_suffixed :
    (value : Text) → ends_with git value ≡ true → strip_git value ≡ take (length value - 4) value
unfolding strip_git
strip_git_suffixed value h = rw h refl

-- what is left ends with ".git" only where the text that is read has one more
url_and_git : (value u : Text) → strip_git value ≡ u → ends_with git u ≡ true → value ≡ u ++ git
unfolding strip_git
url_and_git value u h suffix = elim (Bool-cases (ends_with git value)) [
  | inl ends ↦
      let less : take (length value - 4) value ≡ u = rw ends at h in
      sym (ends_with-append git value ends) ∙ ap (λ x. x ++ git) less
  | inr other ↦
      let same : value ≡ u = rw other at h in absurd (ground (arith, ap (ends_with git) same))
]

IsUrl-less_git :
    (u host path : Text)
    → IsUrl (u ++ git) host path u
    → ends_with git u ≡ true
    → (rest : Text) × IsUrl u host rest (strip_git u)
IsUrl-less_git u host path h suffix =
    let less = take (length u - 4) u in
    let ends : less ++ git ≡ u = ends_with-append git u suffix in
    let (c, before, after) =
      before_suffix b'/' (scheme ++ host) path u git (omega arith) (sym h.whole) in
    let (q, _, tail) =
      before_suffix b'/' (scheme ++ host) c less git (omega arith) (sym before ∙ sym ends) in
    let good : is_bad_url (u ++ git) host ((q ++ git) ++ git) ≡ false =
      ap (is_bad_url (u ++ git) host) (ap (λ x. x ++ git) (sym tail) ∙ sym after) ∙ h.good in
    (
      c,
      record {
        atom =
            validate_atom-less_git u
              (omega (arith, ap (λ (t : Text). length t) ends, length-append less git)) h.atom;
        whole = before;
        host_lacks = h.host_lacks;
        good = ap (is_bad_url u host) tail ∙ is_bad_url-less_git u host q good;
        stripped = refl;
      },
    )

strip_git_shorter :
    (value : Text) → ends_with git value ≡ true → length (strip_git value) < length value
unfolding strip_git ends_with
strip_git_shorter value h =
    let long : 4 ≤ length value = ground arith in
    rw h (omega (arith, length-take (length value - 4) value))

-- Where what the parser returns for a URL still ends in ".git", the parser accepts it too and returns
-- it without that suffix, so that it returns another URL than the one it reads.
pub parse_url_not_idempotent :
    (value u : Text)
    → parse_url value ≡ ok u
    → ends_with (bytes ".git") u ≡ true
    → (parse_url u ≡ ok (take (length u - 4) u)) × (take (length u - 4) u ≢ u)
parse_url_not_idempotent value u h suffix =
    let (host, path, found) = parse_url-eq_ok value u h in
    let whole : value ≡ u ++ git = url_and_git value u found.stripped suffix in
    let (rest, again) =
      IsUrl-less_git u host path (subst (λ v. IsUrl v host path u) whole found) suffix in
    let less : strip_git u ≡ take (length u - 4) u = strip_git_suffixed u suffix in
    (
      parse_url-ok u host rest (strip_git u) again ∙ ap ok less,
      λ same. omega (arith, strip_git_shorter u suffix, ap (λ (t : Text). length t) (less ∙ same)),
    )
