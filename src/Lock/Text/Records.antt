-- ===== src/Lock/Text/Records.antt =====
-- The writers and the readers of the fields of a package, one pair after the other.
use leanbun.Base.{
  ◌&&◌, ◌||◌, Bool, true, false, List, [], ◌∷◌, Option, none, some, length, ltb, eqb, ok, ◌>>◌,
  >>=-eq-ok, reject_if-eq-ok, ◌==◌, bytes_equal, ==_iff, ◌≡◌, ◌≢◌, refl, ap, All, arith, bytes, all,
  not, Bool-cases, inl, inr, leb,
}
use leanbun.Core.Identity.{display_sha256}
use leanbun.Core.Identity.Digest.{IsDigest, parse-display, display-printable, length-display_sha256}
use leanbun.Lock.Model.{Text, Sha256, PackageKey, RequestedSource, ResolvedSource}
use leanbun.Lock.Fields.{
  Made, make_key, parse_url, requested_git, requested_path_snapshot, resolved_git,
  resolved_path_snapshot, validate_git_revision, validate_optional, validate_relative_path,
}
use leanbun.Lock.Hex.{IsString, IsToken, hex, unhex, unhex-hex, hex-IsToken, hex_even}
use leanbun.Lock.Text.Encode.{
  line, line_optional_sha, encode_optional_sha, encode_optional_text, encode_requested,
  encode_resolved, encode_key, encode_sha,
}
use leanbun.Lock.Text.Parse.{
  at, ◌⇒◌, checked, expect, parse_sha, parse_optional_sha, parse_optional_text, parse_requested,
  parse_resolved, read_key, read_sha, read_optional_sha, read_text, read_requested, read_resolved,
}
use leanbun.Lock.Text.Reads.{Reads, Reads-last, Reads-expect, IsToken-of_all}

-- what the constructor has accepted
pub record IsKey (key : PackageKey) : Type 0 where
  pub scope : IsString key.scope
  pub name : IsString key.name
  pub made : make_key key.scope key.name ≡ ok key

unfoldable pub IsOptionalString : Option Text → Type 0
IsOptionalString none = Unit {0}
IsOptionalString (some text) = IsString text

unfoldable pub IsOptionalDigest : Option Sha256 → Type 0
IsOptionalDigest none = Unit {0}
IsOptionalDigest (some digest) = IsDigest digest

-- the URL is one that its parser leaves as it is
unfoldable pub IsRequested : RequestedSource → Type 0
unfolding IsOptionalString
IsRequested (RequestedSource.git url revision) =
    IsString url
    × (parse_url url ≡ ok url)
    × IsOptionalString revision
    × (requested_git url revision ≡ ok (RequestedSource.git url revision))
IsRequested (RequestedSource.path_snapshot token) =
    IsString token × (requested_path_snapshot token ≡ ok (RequestedSource.path_snapshot token))

unfoldable pub IsResolved : ResolvedSource → Type 0
unfolding IsOptionalString
IsResolved (ResolvedSource.git url revision subdir) =
    IsString url
    × (parse_url url ≡ ok url)
    × IsOptionalString subdir
    × (resolved_git url revision subdir ≡ ok (ResolvedSource.git url revision subdir))
IsResolved (ResolvedSource.path_snapshot token) =
    IsString token × (resolved_path_snapshot token ≡ ok (ResolvedSource.path_snapshot token))

pub parse_sha-display_sha256 : (d : Sha256) → IsDigest d → parse_sha (display_sha256 d) ≡ ok d
unfolding parse_sha
parse_sha-display_sha256 d h = rw (parse-display d h, parse_sha) refl

abbrev dash : Text
dash = b'-' ∷ []

-- a text whose length is not 1 is not a dash
not_dash : (text : Text) → length text ≢ 1 → (text == (b'-' ∷ [])) ≡ false
not_dash text h = elim (Bool-cases (text == (b'-' ∷ []))) [
  | inl same ↦ absurd (h (ap (λ (t : Text). length t) ((==_iff text (b'-' ∷ [])).0 same)))
  | inr other ↦ other
]

parse_optional_sha-none : parse_optional_sha dash ≡ ok none
unfolding parse_optional_sha bytes_equal
parse_optional_sha-none = refl

parse_optional_text-none : parse_optional_text dash ≡ ok none
unfolding parse_optional_text bytes_equal
parse_optional_text-none = refl

parse_optional_sha-encode :
    (value : Option Sha256)
    → IsOptionalDigest value
    → parse_optional_sha (encode_optional_sha value) ≡ ok value
unfolding parse_optional_sha encode_optional_sha IsOptionalDigest
parse_optional_sha-encode none h = parse_optional_sha-none
parse_optional_sha-encode (some d) h =
    rw
      (
        not_dash (display_sha256 d) (λ e. omega (arith, e, length-display_sha256 d h)),
        parse_sha-display_sha256 d h,
      )
      refl

parse_optional_text-encode :
    (value : Option Text)
    → IsOptionalString value
    → parse_optional_text (encode_optional_text value) ≡ ok value
unfolding parse_optional_text encode_optional_text IsOptionalString
parse_optional_text-encode none h = parse_optional_text-none
parse_optional_text-encode (some text) h =
    rw (not_dash (hex text) (λ e. omega (arith, e, hex_even text h.bytes)), unhex-hex text h) refl

optional_sha-IsToken :
    (value : Option Sha256) → IsOptionalDigest value → IsToken (encode_optional_sha value)
unfolding encode_optional_sha IsOptionalDigest
optional_sha-IsToken none h = IsToken-of_all (b'-' ∷ []) refl
optional_sha-IsToken (some d) h = display-printable d h

optional_text-IsToken :
    (value : Option Text) → IsOptionalString value → IsToken (encode_optional_text value)
unfolding encode_optional_text IsOptionalString
optional_text-IsToken none h = IsToken-of_all (b'-' ∷ []) refl
optional_text-IsToken (some text) h = hex-IsToken text h.bytes

pub revision-IsToken :
    (value : Text)
    → all (λ b. leb b'0' b && leb b b'9' || leb b'a' b && leb b b'f') value ≡ true
    → IsToken value
revision-IsToken [] h = tt
revision-IsToken (b ∷ value) h = (ground arith, revision-IsToken value (ground arith))

pub tokens_2 : (a b : Text) → IsToken a → IsToken b → All IsToken (a ∷ b ∷ [])
tokens_2 a b h k = (h, (k, tt))

module _ (label : Text) (literal : all (ltb 32) label ≡ true) where
  -- a line of one value
  pub Reads-line_1 :
      {A : Type 0} (next : List Text → Made A) (value : Text) (a : A)
      → IsToken value
      → next (value ∷ []) ≡ ok a
      → Reads (expect label 1 ⇒ λ values. checked (next values)) (line label (value ∷ [])) a
  Reads-line_1 next value a token =
      Reads-last (expect label 1) next (line label (value ∷ [])) (value ∷ []) a
        (Reads-expect label (value ∷ []) (IsToken-of_all label literal, (token, tt)) 1 refl)

  pub Reads-read_key :
      (key : PackageKey) → IsKey key → Reads (read_key label) (encode_key label key) key
  unfolding read_key encode_key ◌⇒◌
  Reads-read_key key h =
      let header =
        Reads-expect label (hex key.scope ∷ hex key.name ∷ [])
          (
            IsToken-of_all label literal,
            tokens_2 (hex key.scope) (hex key.name) (hex-IsToken key.scope h.scope.bytes)
                (hex-IsToken key.name h.name.bytes),
          )
          2 refl in
      record {
        on_lines = λ rest.
            rw
              (header.on_lines rest, unhex-hex key.scope h.scope, unhex-hex key.name h.name, h.made)
              refl;
        no_return = header.no_return;
      }

  pub Reads-read_sha : (d : Sha256) → IsDigest d → Reads (read_sha label) (encode_sha label d) d
  unfolding read_sha encode_sha
  Reads-read_sha d h =
      Reads-line_1 (λ values. parse_sha (at values 0)) (display_sha256 d) d (display-printable d h)
        (parse_sha-display_sha256 d h)

  pub Reads-read_text :
      (text : Text) → IsString text → Reads (read_text label) (line label (hex text ∷ [])) text
  unfolding read_text
  Reads-read_text text h =
      Reads-line_1 (λ values. unhex (at values 0)) (hex text) text (hex-IsToken text h.bytes)
        (unhex-hex text h)

  pub Reads-read_optional_sha :
      (value : Option Sha256)
      → IsOptionalDigest value
      → Reads (read_optional_sha label) (line_optional_sha label value) value
  unfolding read_optional_sha line_optional_sha
  Reads-read_optional_sha value h =
      Reads-line_1 (λ values. parse_optional_sha (at values 0)) (encode_optional_sha value) value
        (optional_sha-IsToken value h) (parse_optional_sha-encode value h)

parse_requested-encode_git :
    (url : Text) (revision : Option Text)
    → IsRequested (RequestedSource.git url revision)
    → parse_requested (bytes "git" ∷ hex url ∷ encode_optional_text revision ∷ [])
      ≡ ok (RequestedSource.git url revision)
unfolding parse_requested IsRequested bytes_equal
parse_requested-encode_git url revision (string, parsed, optional, made) =
    rw (unhex-hex url string, parsed, parse_optional_text-encode revision optional) made

parse_requested-encode_path :
    (token : Text)
    → IsRequested (RequestedSource.path_snapshot token)
    → parse_requested (bytes "path-snapshot" ∷ hex token ∷ dash ∷ [])
      ≡ ok (RequestedSource.path_snapshot token)
unfolding parse_requested IsRequested bytes_equal
parse_requested-encode_path token (string, made) = rw (unhex-hex token string) made

parse_resolved-encode_git :
    (url revision : Text) (subdir : Option Text)
    → IsResolved (ResolvedSource.git url revision subdir)
    → parse_resolved (bytes "git" ∷ hex url ∷ revision ∷ encode_optional_text subdir ∷ [])
      ≡ ok (ResolvedSource.git url revision subdir)
unfolding parse_resolved IsResolved bytes_equal
parse_resolved-encode_git url revision subdir (string, parsed, optional, made) =
    rw (unhex-hex url string, parsed, parse_optional_text-encode subdir optional) made

parse_resolved-encode_path :
    (token : Text)
    → IsResolved (ResolvedSource.path_snapshot token)
    → parse_resolved (bytes "path-snapshot" ∷ hex token ∷ dash ∷ dash ∷ [])
      ≡ ok (ResolvedSource.path_snapshot token)
unfolding parse_resolved IsResolved bytes_equal
parse_resolved-encode_path token (string, made) = rw (unhex-hex token string) made

-- the revision of an accepted source has hexadecimal digits only
resolved_git-IsToken :
    (url revision : Text) (subdir : Option Text) (s : ResolvedSource)
    → resolved_git url revision subdir ≡ ok s
    → IsToken revision
unfolding resolved_git validate_git_revision
resolved_git-IsToken url revision subdir s h =
    let (u, first, rest) =
      >>=-eq-ok
        (validate_git_revision revision
          >> validate_optional (λ value. validate_relative_path value 1024) subdir)
        _ h in
    let (v, valid, more) =
      >>=-eq-ok (validate_git_revision revision)
        (λ _. validate_optional (λ value. validate_relative_path value 1024) subdir) first in
    let tested =
      reject_if-eq-ok
        (not (eqb (length revision) 40)
          || not (all (λ b. leb b'0' b && leb b b'9' || leb b'a' b && leb b b'f') revision))
        _ valid in
    revision-IsToken revision (second_test _ _ tested)
  where
    second_test : (p q : Bool) → (not p || not q) ≡ false → q ≡ true
    second_test p q t = ground arith

pub Reads-requested :
    (s : RequestedSource) → IsRequested s → Reads read_requested (encode_requested s) s
unfolding encode_requested IsRequested read_requested
Reads-requested (RequestedSource.git url revision) h =
    Reads-last (expect (bytes "requested") 3) parse_requested
      (line (bytes "requested") (bytes "git" ∷ hex url ∷ encode_optional_text revision ∷ []))
      (bytes "git" ∷ hex url ∷ encode_optional_text revision ∷ [])
      (RequestedSource.git url revision)
      (Reads-expect (bytes "requested") (bytes "git" ∷ hex url ∷ encode_optional_text revision ∷ [])
        (
          IsToken-of_all (bytes "requested") refl,
          (
            IsToken-of_all (bytes "git") refl,
            tokens_2 (hex url) (encode_optional_text revision) (hex-IsToken url h.0.bytes)
                (optional_text-IsToken revision h.2),
          ),
        )
        3 refl)
      (parse_requested-encode_git url revision h)
Reads-requested (RequestedSource.path_snapshot token) h =
    Reads-last (expect (bytes "requested") 3) parse_requested
      (line (bytes "requested") (bytes "path-snapshot" ∷ hex token ∷ dash ∷ []))
      (bytes "path-snapshot" ∷ hex token ∷ dash ∷ []) (RequestedSource.path_snapshot token)
      (Reads-expect (bytes "requested") (bytes "path-snapshot" ∷ hex token ∷ dash ∷ [])
        (
          IsToken-of_all (bytes "requested") refl,
          (
            IsToken-of_all (bytes "path-snapshot") refl,
            tokens_2 (hex token) dash (hex-IsToken token h.0.bytes) (IsToken-of_all dash refl),
          ),
        )
        3 refl)
      (parse_requested-encode_path token h)

pub Reads-resolved : (s : ResolvedSource) → IsResolved s → Reads read_resolved (encode_resolved s) s
unfolding encode_resolved IsResolved read_resolved
Reads-resolved (ResolvedSource.git url revision subdir) h =
    Reads-last (expect (bytes "resolved") 4) parse_resolved
      (line (bytes "resolved")
        (bytes "git" ∷ hex url ∷ revision ∷ encode_optional_text subdir ∷ []))
      (bytes "git" ∷ hex url ∷ revision ∷ encode_optional_text subdir ∷ [])
      (ResolvedSource.git url revision subdir)
      (Reads-expect (bytes "resolved")
        (bytes "git" ∷ hex url ∷ revision ∷ encode_optional_text subdir ∷ [])
        (
          IsToken-of_all (bytes "resolved") refl,
          (
            IsToken-of_all (bytes "git") refl,
            (
              hex-IsToken url h.0.bytes,
              tokens_2 revision (encode_optional_text subdir)
                  (resolved_git-IsToken url revision subdir _ h.3)
                  (optional_text-IsToken subdir h.2),
            ),
          ),
        )
        4 refl)
      (parse_resolved-encode_git url revision subdir h)
Reads-resolved (ResolvedSource.path_snapshot token) h =
    Reads-last (expect (bytes "resolved") 4) parse_resolved
      (line (bytes "resolved") (bytes "path-snapshot" ∷ hex token ∷ dash ∷ dash ∷ []))
      (bytes "path-snapshot" ∷ hex token ∷ dash ∷ dash ∷ []) (ResolvedSource.path_snapshot token)
      (Reads-expect (bytes "resolved") (bytes "path-snapshot" ∷ hex token ∷ dash ∷ dash ∷ [])
        (
          IsToken-of_all (bytes "resolved") refl,
          (
            IsToken-of_all (bytes "path-snapshot") refl,
            (
              hex-IsToken token h.0.bytes,
              tokens_2 dash dash (IsToken-of_all dash refl) (IsToken-of_all dash refl),
            ),
          ),
        )
        4 refl)
      (parse_resolved-encode_path token h)
