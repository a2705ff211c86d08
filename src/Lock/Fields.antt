-- ===== src/Lock/Fields.antt =====
-- The validating constructors of rust/crates/leanbun-lock/src/lock_v1.rs.
use leanbun.Base.{
  ℕ, ◌-◌, Bool, true, false, not, ◌&&◌, ◌||◌, [], ◌∷◌, ◌++◌, Option, none, some, length, take, drop,
  any, all, ltb, leb, eqb, if◌then◌else◌, Result, ok, err, ◌>>◌, reject_if, ◌==◌, bytes_equal,
  bytes, has_control, starts_with, ends_with, strip_prefix, split_once, split_on, is_bad_part,
  contains,
}
use leanbun.Lock.Model.{Text, PackageKey, RequestedSource, ResolvedSource, LockErrorKind}

abbrev pub Made : Type 0 → Type 0
Made A = Result LockErrorKind A

abbrev invalid : Bool → Made (Unit {0})
invalid test = reject_if test LockErrorKind.invalid_field

unfoldable pub validate_atom : Text → ℕ → Bool → Made (Unit {0})
unfolding has_control
validate_atom value maximum allow_empty =
    invalid
      (not allow_empty && eqb (length value) 0 || ltb maximum (length value) || has_control value)

unfoldable pub validate_git_revision : Text → Made (Unit {0})
validate_git_revision value = invalid (
    not (eqb (length value) 40)
    || not (all (λ b. leb b'0' b && leb b b'9' || leb b'a' b && leb b b'f') value))

unfoldable pub validate_relative_path : Text → ℕ → Made (Unit {0})
unfolding validate_atom split_on is_bad_part
validate_relative_path value maximum =
    validate_atom value maximum false
    >> invalid (contains b'\\' value || any is_bad_part (split_on b'/' value))

-- `value.as_bytes().get(1) == Some(&b':')`
unfoldable pub has_drive : Text → Bool
has_drive (a ∷ b ∷ rest) = eqb b b':'
has_drive _ = false

unfoldable pub validate_portable_path : Text → Made (Unit {0})
unfolding starts_with has_drive validate_relative_path
validate_portable_path value =
    reject_if (starts_with (b'/' ∷ []) value || starts_with (b'\\' ∷ []) value || has_drive value)
      LockErrorKind.absolute_portable_path
    >> validate_relative_path value 4096

unfoldable pub valid_normalized_absolute_path : Text → Bool
unfolding bytes_equal starts_with split_on is_bad_part
valid_normalized_absolute_path value =
    starts_with (b'/' ∷ []) value
    && not (value == (b'/' ∷ []))
    && all (λ part. not (is_bad_part part)) (split_on b'/' (drop 1 value))

unfoldable pub validate_contained_absolute_path : Text → Text → Made (Unit {0})
unfolding valid_normalized_absolute_path bytes_equal starts_with
validate_contained_absolute_path root candidate =
    invalid
      (not (valid_normalized_absolute_path root) || not (valid_normalized_absolute_path candidate))
    >> reject_if (candidate == root || not (starts_with (root ++ b'/' ∷ []) candidate))
        LockErrorKind.path_outside_generation_root

-- PackageKeyV1::new
unfoldable pub make_key : Text → Text → Made PackageKey
unfolding validate_atom
make_key scope name =
    validate_atom scope 256 true
    >> validate_atom name 256 false
    >> ok (record { scope = scope; name = name })

-- `byte.is_ascii_lowercase() || byte.is_ascii_digit() || matches!(byte, b'.' | b'-')`
abbrev pub is_host_byte : ℕ → Bool
is_host_byte b = leb b'a' b && leb b b'z' || leb b'0' b && leb b b'9' || eqb b b'.' || eqb b b'-'

-- `label.is_empty() || label.starts_with('-') || label.ends_with('-')`
unfoldable pub is_bad_label : Text → Bool
unfolding starts_with ends_with
is_bad_label label =
    eqb (length label) 0 || starts_with (b'-' ∷ []) label || ends_with (b'-' ∷ []) label

abbrev pub is_ascii_whitespace : ℕ → Bool
is_ascii_whitespace b = eqb b b' ' || eqb b 9 || eqb b 10 || eqb b 12 || eqb b 13

-- the tests on a URL that is cut into host and path
unfoldable pub is_bad_url : Text → Text → Text → Bool
unfolding is_bad_label split_on is_bad_part
is_bad_url value host path =
    eqb (length host) 0
    || not (all (λ b. ltb b 128) host)
    || any (λ b. not (is_host_byte b)) host
    || any is_bad_label (split_on b'.' host)
    || any is_bad_part (split_on b'/' path)
    || contains b'#' value
    || contains b'?' value
    || contains b'%' value
    || contains b'\\' value
    || any is_ascii_whitespace value

-- `if value.ends_with(".git") { value.truncate(value.len() - 4) }`
unfoldable pub strip_git : Text → Text
unfolding ends_with
strip_git value = if ends_with (bytes ".git") value then take (length value - 4) value else value

unfoldable pub parse_split_url : Text → Option (Text × Text) → Made Text
unfolding is_bad_url strip_git
parse_split_url value none = err LockErrorKind.invalid_field
parse_split_url value (some (host, path)) =
    invalid (is_bad_url value host path) >> ok (strip_git value)

unfoldable pub parse_remainder : Text → Option Text → Made Text
unfolding split_once parse_split_url
parse_remainder value none = err LockErrorKind.invalid_field
parse_remainder value (some remainder) = parse_split_url value (split_once b'/' remainder)

-- CanonicalSourceUrlV1::parse
unfoldable pub parse_url : Text → Made Text
unfolding validate_atom strip_prefix parse_remainder
parse_url value =
    validate_atom value 4096 false >> parse_remainder value (strip_prefix (bytes "https://") value)

-- `if let Some(value) = value.as_deref()`
unfoldable pub validate_optional : (Text → Made (Unit {0})) → Option Text → Made (Unit {0})
validate_optional validate none = ok tt
validate_optional validate (some value) = validate value

-- RequestedPackageSourceV1::git and ::path_snapshot
unfoldable pub requested_git : Text → Option Text → Made RequestedSource
unfolding validate_optional validate_atom
requested_git url revision =
    validate_optional (λ value. validate_atom value 4096 false) revision
    >> ok (RequestedSource.git url revision)

unfoldable pub requested_path_snapshot : Text → Made RequestedSource
unfolding validate_portable_path
requested_path_snapshot token =
    validate_portable_path token >> ok (RequestedSource.path_snapshot token)

-- ResolvedPackageSourceV1::git and ::path_snapshot
unfoldable pub resolved_git : Text → Text → Option Text → Made ResolvedSource
unfolding validate_git_revision validate_optional validate_relative_path
resolved_git url exact_revision subdir =
    validate_git_revision exact_revision
    >> validate_optional (λ value. validate_relative_path value 1024) subdir
    >> ok (ResolvedSource.git url exact_revision subdir)

unfoldable pub resolved_path_snapshot : Text → Made ResolvedSource
unfolding validate_portable_path
resolved_path_snapshot token =
    validate_portable_path token >> ok (ResolvedSource.path_snapshot token)
