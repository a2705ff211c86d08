-- ===== src/Resolver/Fields.antt =====
-- The constructors of rust/crates/leanbun-resolver/src/model.rs, which validate what they are given.
use leanbun.Base.{
  Bool, false, not, ◌&&◌, ◌||◌, List, [], ◌∷◌, Option, none, some, length, any, all, ltb, leb, eqb,
  get_or, Result, ok, ◌>>◌, reject_if, bytes_equal, sort_by, has_repeat, split_on, is_bad_part,
}
use leanbun.Lock.Model.{Text, Sha256, PackageKey, key_equal, compare_keys}
use leanbun.Resolver.Model.{
  ErrorKind, ResolutionError, error, Toolchain, SourceRequest, ExactSource, Mode,
}

abbrev pub Checked : Type 0
Checked = Result ResolutionError (Unit {0})

unfoldable pub validate_text : Text → Checked
validate_text value =
    reject_if
      (eqb (length value) 0
        || ltb 4096 (length value)
        || any (λ b. eqb b 0 || leb b 0x1f || eqb b 0x7f) value)
      (error ErrorKind.invalid_field)

unfoldable pub validate_exact_revision : Text → Checked
validate_exact_revision value =
    reject_if
      (not (eqb (length value) 40)
        || not (all (λ b. leb b'0' b && leb b b'9' || leb b'a' b && leb b b'f') value))
      (error ErrorKind.invalid_field)

-- a first byte that is either slash
unfoldable pub starts_with_slash : Text → Bool
starts_with_slash [] = false
starts_with_slash (b ∷ rest) = eqb b b'/' || eqb b b'\\'

unfoldable pub validate_relative_path : Text → Checked
unfolding validate_text split_on is_bad_part starts_with_slash
validate_relative_path value =
    validate_text value
    >> reject_if
        (starts_with_slash value
          || any (λ b. eqb b b'\\') value
          || any is_bad_part (split_on b'/' value)
          || leb 2 (length value) && eqb (get_or value 1 0) b':')
        (error ErrorKind.invalid_field)

-- `if let Some(value) = value.as_deref()`
unfoldable pub validate_optional : (Text → Checked) → Option Text → Checked
validate_optional validate none = ok tt
validate_optional validate (some value) = validate value

-- LeanToolchainIdentityV1::new
unfoldable pub make_toolchain : Text → Text → Text → Result ResolutionError Toolchain
unfolding validate_text validate_exact_revision
make_toolchain lean_toolchain compiler_githash lake_version =
    validate_text lean_toolchain
    >> validate_exact_revision compiler_githash
    >> validate_text lake_version
    >> ok (record {
      lean_toolchain = lean_toolchain;
      compiler_githash = compiler_githash;
      lake_version = lake_version;
    })

-- LeanSourceRequestV1::git, ::reservoir and ::path
unfoldable pub request_git : Text → Option Text → Option Text → Result ResolutionError SourceRequest
unfolding validate_optional validate_text validate_relative_path
request_git url revision subdir =
    validate_optional validate_text revision
    >> validate_optional validate_relative_path subdir
    >> ok (SourceRequest.git url revision subdir)

unfoldable pub request_reservoir : Option Text → Result ResolutionError SourceRequest
unfolding validate_optional validate_text
request_reservoir version =
    validate_optional validate_text version >> ok (SourceRequest.reservoir version)

unfoldable pub request_path : Text → Result ResolutionError SourceRequest
unfolding validate_relative_path
request_path token = validate_relative_path token >> ok (SourceRequest.path token)

-- LeanExactSourceV1::git and ::path
unfoldable pub exact_git : Text → Text → Option Text → Result ResolutionError ExactSource
unfolding validate_exact_revision validate_optional validate_relative_path
exact_git url exact_revision subdir =
    validate_exact_revision exact_revision
    >> validate_optional validate_relative_path subdir
    >> ok (ExactSource.git url exact_revision subdir)

unfoldable pub exact_path : Text → Sha256 → Result ResolutionError ExactSource
unfolding validate_relative_path
exact_path token source_identity =
    validate_relative_path token >> ok (ExactSource.path token source_identity)

-- LeanResolutionModeV1::update
unfoldable pub make_update : List PackageKey → Result ResolutionError Mode
unfolding sort_by has_repeat key_equal compare_keys
make_update packages =
    let sorted = sort_by compare_keys packages in
    reject_if (has_repeat sorted) (error ErrorKind.duplicate_update_target)
    >> reject_if (ltb 4096 (length sorted)) (error ErrorKind.limit_exceeded)
    >> ok (Mode.update sorted)

-- LeanResolutionModeV1::update_set
unfoldable pub update_set : Mode → List PackageKey
update_set Mode.frozen = []
update_set (Mode.update packages) = packages
