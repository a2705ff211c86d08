-- ===== src/Lake/Probe.antt =====
-- parse_root_declaration_probe_v1 of rust/crates/leanbun-lake-bridge/src/model.rs: the root declaration
-- that an external program prints as JSON.
pub mod Laws
use leanbun.Base.{
  ℕ, zero, suc, ◌+◌, ◌^◌, Bool, true, false, not, ◌&&◌, ◌||◌, List, [], ◌∷◌, Option, none, some,
  length, all, ltb, leb, eqb, Result, ok, err, ◌>>=◌, ◌>>◌, reject_if, ◌==◌, bytes_equal, bytes,
  has_control, if◌then◌else◌, value_from, is_digit,
}
use leanbun.Base.Membership.{has_difference}
use leanbun.Codec.Json
use leanbun.Codec.Json.{StrictJson, Items, Fields}
use leanbun.Codec.Parser.{parse_strict_json}
use leanbun.Lock.Model.{Text, PackageKey}
use leanbun.Lock.Fields.{make_key}
use leanbun.Lake.Model.{LakeErrorKind, LakeSource, RootDependency, RootDeclaration}
use leanbun.Lake.Declaration.{Bridged, make_dependency, make_declaration}

-- `result.map_err(|error| malformed(error.to_string()))`
unfoldable pub or_malformed : {E A : Type 0} → Result E A → Bridged A
or_malformed (ok value) = ok value
or_malformed (err failure) = err LakeErrorKind.malformed_probe_output

-- `value.get(name)` of a BTreeMap
unfoldable pub get_field : Text → Fields → Option StrictJson
unfolding bytes_equal
get_field name Fields.no_fields = none
get_field name (Fields.field key value rest) =
    if key == name then some value else get_field name rest

unfoldable pub field_names : Fields → List Text
field_names Fields.no_fields = []
field_names (Fields.field key value rest) = key ∷ field_names rest

unfoldable pub count_items : Items → ℕ
count_items Items.no_items = 0
count_items (Items.item value rest) = suc (count_items rest)

unfoldable pub object : StrictJson → Bridged Fields
object (StrictJson.object fields) = ok fields
object _ = err LakeErrorKind.malformed_probe_output

unfoldable pub array : Option StrictJson → Bridged Items
array (some (StrictJson.array items)) = ok items
array _ = err LakeErrorKind.malformed_probe_output

unfoldable pub string : Option StrictJson → ℕ → Bool → Bridged Text
unfolding has_control
string (some (StrictJson.string value)) maximum allow_empty =
    reject_if
      (not (
        (allow_empty || not (eqb (length value) 0))
        && leb (length value) maximum
        && not (has_control value)))
      LakeErrorKind.malformed_probe_output
    >> ok value
string _ maximum allow_empty = err LakeErrorKind.malformed_probe_output

unfoldable pub nullable_string : Option StrictJson → ℕ → Bridged (Option Text)
unfolding has_control
nullable_string (some StrictJson.null) maximum = ok none
nullable_string (some (StrictJson.string value)) maximum =
    reject_if
      (not (not (eqb (length value) 0) && leb (length value) maximum && not (has_control value)))
      LakeErrorKind.malformed_probe_output
    >> ok (some value)
nullable_string _ maximum = err LakeErrorKind.malformed_probe_output

-- `str::parse::<u64>`, which takes one plus sign before the digits
unfoldable pub parse_u64 : Text → Option ℕ
unfolding value_from
parse_u64 [] = none
parse_u64 (b ∷ rest) =
    let digits = if eqb b b'+' then rest else (b ∷ rest) in
    if not (eqb (length digits) 0) && all is_digit digits && ltb (value_from 0 digits) (2 ^ 64)
    then some (value_from 0 digits)
    else none

unfoldable pub integer : Option StrictJson → Bridged ℕ
unfolding parse_u64
integer (some (StrictJson.number text)) = elim (parse_u64 text) [
  | none ↦ err LakeErrorKind.malformed_probe_output
  | some n ↦ ok n
]
integer _ = err LakeErrorKind.malformed_probe_output

-- the keys and the expected names, as sets
unfoldable pub exact_fields : Fields → List Text → Bridged (Unit {0})
unfolding field_names bytes_equal
exact_fields value fields =
    reject_if
      (has_difference (field_names value) fields || has_difference fields (field_names value))
      LakeErrorKind.malformed_probe_output

unfoldable pub read_git : Fields → Bridged LakeSource
unfolding exact_fields string nullable_string get_field
read_git fields =
    exact_fields fields (bytes "kind" ∷ bytes "revision" ∷ bytes "subDir" ∷ bytes "url" ∷ [])
    >> string (get_field (bytes "url") fields) 4096 false
    >>= λ url. nullable_string (get_field (bytes "revision") fields) 4096 >>= λ revision.
        nullable_string (get_field (bytes "subDir") fields) 4096 >>= λ subdir.
        ok (LakeSource.git url revision subdir)

unfoldable pub read_source : Fields → Bridged LakeSource
unfolding string get_field bytes_equal read_git exact_fields
read_source fields = string (get_field (bytes "kind") fields) 256 false >>= λ kind.
    (if kind == bytes "git"
      then read_git fields
      else if kind == bytes "path"
      then (exact_fields fields (bytes "directory" ∷ bytes "kind" ∷ [])
          >> string (get_field (bytes "directory") fields) 4096 false
          >>= λ directory. ok (LakeSource.path directory))
      else if kind == bytes "reservoir"
      then (exact_fields fields (bytes "kind" ∷ []) >> ok LakeSource.reservoir)
      else err LakeErrorKind.malformed_probe_output)

-- `item.get("source").ok_or_else(..)?`
unfoldable pub present : Option StrictJson → Bridged StrictJson
present (some value) = ok value
present none = err LakeErrorKind.malformed_probe_output

-- one round of the loop over the dependencies
unfoldable pub read_dependency : StrictJson → Bridged RootDependency
unfolding object exact_fields string get_field make_key or_malformed nullable_string present
    read_source make_dependency
read_dependency value = object value >>= λ fields.
    exact_fields fields (bytes "name" ∷ bytes "scope" ∷ bytes "source" ∷ bytes "version" ∷ [])
    >> string (get_field (bytes "scope") fields) 256 true
    >>= λ scope. string (get_field (bytes "name") fields) 256 false >>= λ name.
        or_malformed (make_key scope name) >>= λ key.
        nullable_string (get_field (bytes "version") fields) 4096 >>= λ version.
        present (get_field (bytes "source") fields) >>= λ source. object source >>= λ source_fields.
        read_source source_fields >>= λ source. make_dependency key version source

unfoldable pub read_dependencies : Items → Bridged (List RootDependency)
unfolding read_dependency
read_dependencies Items.no_items = ok []
read_dependencies (Items.item value rest) =
    read_dependency value >>= λ d. read_dependencies rest >>= λ ds. ok (d ∷ ds)

unfoldable pub parse_root_declaration_probe : Text → Bridged RootDeclaration
unfolding parse_strict_json or_malformed object exact_fields integer string array get_field
    count_items read_dependencies make_declaration
parse_root_declaration_probe text = or_malformed (parse_strict_json text) >>= λ value.
    object value >>= λ root.
    exact_fields root
      (bytes "configFile" ∷ bytes "dependencies" ∷ bytes "rootName" ∷ bytes "schemaVersion" ∷ [])
    >> integer (get_field (bytes "schemaVersion") root)
    >>= λ version.
        reject_if (not (eqb version 1)) LakeErrorKind.malformed_probe_output
        >> string (get_field (bytes "rootName") root) 256 false
        >>= λ root_name. string (get_field (bytes "configFile") root) 256 false >>= λ config_file.
            array (get_field (bytes "dependencies") root) >>= λ values.
            reject_if (ltb 4096 (count_items values)) LakeErrorKind.limit_exceeded
            >> read_dependencies values
            >>= λ dependencies. make_declaration root_name config_file dependencies
