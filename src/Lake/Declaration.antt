-- ===== src/Lake/Declaration.antt =====
-- LakeRootDependencyV1::new and LakeRootDeclarationV1::new of
-- rust/crates/leanbun-lake-bridge/src/model.rs.
pub mod Laws
use leanbun.Base.{
  ℕ, Bool, true, false, not, ◌&&◌, ◌||◌, List, [], ◌∷◌, ◌++◌, map, Option, none, some, length, any,
  ltb, leb, eqb, get_or, Result, ok, ◌>>◌, reject_if, ◌==◌, bytes_equal, bytes, sort_by, has_repeat,
  has_control, starts_with, split_on, is_bad_part,
}
use leanbun.Base.Ascending.{by_key}
use leanbun.Core.Sha256.{Hasher, new, update, finalize}
use leanbun.Core.Framing.{hash_string, hash_optional_string}
use leanbun.Lock.Model.{Text, Sha256, PackageKey, key_equal, key_ord, compare_keys}
use leanbun.Lock.Fields.{is_ascii_whitespace}
use leanbun.Lake.Model.{LakeErrorKind, LakeSource, RootDependency, RootDeclaration}

abbrev pub Bridged : Type 0 → Type 0
Bridged A = Result LakeErrorKind A

unfoldable pub validate_text : Text → ℕ → Bool → Bridged (Unit {0})
unfolding has_control
validate_text value maximum allow_empty =
    reject_if
      (not allow_empty && eqb (length value) 0 || ltb maximum (length value) || has_control value)
      LakeErrorKind.invalid_field

unfoldable pub validate_https_url : Text → Bridged (Unit {0})
unfolding validate_text starts_with
validate_https_url value =
    validate_text value 4096 false
    >> reject_if
        (not (starts_with (bytes "https://") value)
          || any (λ b. eqb b b'?' || eqb b b'#' || eqb b b'\\') value
          || any is_ascii_whitespace value)
        LakeErrorKind.invalid_field

unfoldable pub validate_relative_path : Text → Bridged (Unit {0})
unfolding validate_text starts_with split_on is_bad_part
validate_relative_path value =
    validate_text value 4096 false
    >> reject_if
        (starts_with (b'/' ∷ []) value
          || any (λ b. eqb b b'\\') value
          || leb 2 (length value) && eqb (get_or value 1 0) b':'
          || any is_bad_part (split_on b'/' value))
        LakeErrorKind.invalid_field

-- `if let Some(value) = value.as_deref()`
unfoldable pub validate_optional : (Text → Bridged (Unit {0})) → Option Text → Bridged (Unit {0})
validate_optional validate none = ok tt
validate_optional validate (some value) = validate value

unfoldable pub validate_source : LakeSource → Bridged (Unit {0})
unfolding validate_https_url validate_optional validate_text validate_relative_path
validate_source (LakeSource.git url revision subdir) =
    validate_https_url url
    >> validate_optional (λ value. validate_text value 4096 false) revision
    >> validate_optional validate_relative_path subdir
validate_source (LakeSource.path directory) = validate_relative_path directory
validate_source LakeSource.reservoir = ok tt

-- LakeRootDependencyV1::new
unfoldable pub make_dependency : PackageKey → Option Text → LakeSource → Bridged RootDependency
unfolding validate_optional validate_text validate_source
make_dependency key version source =
    validate_optional (λ value. validate_text value 4096 false) version
    >> validate_source source
    >> ok (record { key = key; version = version; source = source })

unfoldable pub hash_source : LakeSource → Hasher → Hasher
unfolding update hash_string hash_optional_string
hash_source (LakeSource.git url revision subdir) hasher =
    hash_optional_string subdir
      (hash_optional_string revision (hash_string url (update hasher (0 ∷ []))))
hash_source (LakeSource.path directory) hasher = hash_string directory (update hasher (1 ∷ []))
hash_source LakeSource.reservoir hasher = update hasher (2 ∷ [])

unfoldable pub hash_dependencies : List RootDependency → Hasher → Hasher
unfolding hash_string hash_optional_string hash_source
hash_dependencies [] hasher = hasher
hash_dependencies (d ∷ ds) hasher = hash_dependencies ds (
    hash_source d.source
      (hash_optional_string d.version (hash_string d.key.name (hash_string d.key.scope hasher))))

unfoldable pub declaration_identity : Text → Text → List RootDependency → Sha256
unfolding new update hash_string hash_dependencies finalize
declaration_identity root_name config_file dependencies = finalize (
    hash_dependencies dependencies (
      hash_string config_file
        (hash_string root_name (update new (bytes "leanbun-lake-root-declaration-v1" ++ 0 ∷ [])))))

-- `dependencies.sort_by(|left, right| left.key.cmp(&right.key))`
unfoldable pub sort_dependencies : List RootDependency → List RootDependency
unfolding sort_by key_ord
sort_dependencies dependencies = sort_by (by_key (λ d. d.key)) dependencies

-- LakeRootDeclarationV1::new
unfoldable pub make_declaration : Text → Text → List RootDependency → Bridged RootDeclaration
unfolding validate_text bytes_equal sort_dependencies has_repeat key_equal declaration_identity
make_declaration root_name config_file dependencies =
    let sorted = sort_dependencies dependencies in
    validate_text root_name 256 false
    >> reject_if
        (not (config_file == bytes "lakefile.toml" || config_file == bytes "lakefile.lean"))
        LakeErrorKind.invalid_field
    >> reject_if (ltb 4096 (length dependencies)) LakeErrorKind.limit_exceeded
    >> reject_if (has_repeat (map (λ d. d.key) sorted)) LakeErrorKind.duplicate_dependency
    >> ok (record {
      root_name = root_name;
      config_file = config_file;
      dependencies = sorted;
      identity = declaration_identity root_name config_file sorted;
    })
