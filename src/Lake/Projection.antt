-- ===== src/Lake/Projection.antt =====
-- LakeManifestProjectionV1 and LakeRuntimePackagesProjectionV1 of
-- rust/crates/leanbun-lake-bridge/src/model.rs: the JSON that Lake reads.
pub mod Laws
pub mod Roots
pub mod Escapes
pub mod Strings
use leanbun.Base.{
  ℕ, suc, Bool, true, false, not, ◌&&◌, ◌||◌, List, [], ◌∷◌, ◌++◌, map, Option, none, some, length,
  ltb, leb, eqb, if◌then◌else◌, ok, err, ◌>>=◌, ◌>>◌, reject_if, ◌==◌, bytes_equal, bytes, sort_by,
  has_repeat,
}
use leanbun.Base.Ascending.{by_key}
use leanbun.Base.Membership.{has_difference}
use leanbun.Base.TreeMap.{TreeMap, get, insert}
use leanbun.Core.Sha256.{new, update, finalize}
use leanbun.Lock.Model
use leanbun.Lock.Model.{
  Text, Sha256, PackageKey, key_equal, key_ord, option_equal, RequestedSource, ResolvedSource,
  LockedPackage,
}
use leanbun.Lock.Hex.{hex}
use leanbun.Lock.Provenance.{PathDecision}
use leanbun.Lock.Decisions.{DecisionSet}
use leanbun.Reservoir.Document.{locked_map}
use leanbun.Lake.Model.{LakeErrorKind, LakeSource, RootDependency, RootDeclaration}
use leanbun.Lake.Declaration.{Bridged, validate_text, validate_relative_path, validate_optional}

pub record Metadata : Type 0 where
  pub key : PackageKey
  pub inherited : Bool
  pub config_file : Text
  pub manifest_file : Option Text
  pub input_revision : Option Text

-- LakePackageProjectionMetadataV1::new: the argument holds the constructor's arguments as fields
unfoldable pub make_metadata : Metadata → Bridged Metadata
unfolding validate_relative_path validate_optional validate_text
make_metadata m =
    validate_relative_path m.config_file
    >> validate_optional validate_relative_path m.manifest_file
    >> validate_optional (λ value. validate_text value 4096 false) m.input_revision
    >> ok m

-- `revision.as_deref().is_some_and(|value| value != exact_revision)`
unfoldable pub is_other_revision : Option Text → Text → Bool
unfolding bytes_equal
is_other_revision none exact = false
is_other_revision (some value) exact = not (value == exact)

-- the `match` on the three sources of a root dependency
unfoldable pub check_sources : LakeSource → RequestedSource → ResolvedSource → Bridged (Unit {0})
unfolding bytes_equal option_equal is_other_revision
check_sources (LakeSource.git url revision subdir) (RequestedSource.git requested _)
      (ResolvedSource.git resolved exact locked_subdir) =
    reject_if
      (not (url == requested)
        || not (url == resolved)
        || is_other_revision revision exact
        || not (subdir == locked_subdir))
      LakeErrorKind.source_value_drift
check_sources (LakeSource.path directory) (RequestedSource.path_snapshot token)
      (ResolvedSource.path_snapshot resolved) =
    reject_if (not (directory == token) || not (directory == resolved))
      LakeErrorKind.source_value_drift
check_sources LakeSource.reservoir _ _ = ok tt
check_sources _ _ _ = err LakeErrorKind.source_kind_drift

-- the loop over the dependencies of the declaration
unfoldable pub check_dependencies :
    TreeMap PackageKey LockedPackage → List RootDependency → Bridged (Unit {0})
unfolding get key_ord check_sources
check_dependencies locked [] = ok tt
check_dependencies locked (d ∷ ds) =
    let rest = check_dependencies locked ds in
    elim (get d.key locked) [
      | none ↦ err LakeErrorKind.missing_package
      | some p ↦ check_sources d.source p.requested p.resolved >> rest
    ]

unfoldable pub validate_root_dependencies : RootDeclaration → Model.Lock → Bridged (Unit {0})
unfolding locked_map check_dependencies
validate_root_dependencies declaration lock =
    check_dependencies (locked_map lock.packages []) declaration.dependencies

-- `metadata.sort_by(|left, right| left.key.cmp(&right.key))`
unfoldable pub sort_metadata : List Metadata → List Metadata
unfolding sort_by key_ord
sort_metadata metadata = sort_by (by_key (λ m. m.key)) metadata

-- `metadata.into_iter().map(|item| (item.key.clone(), item)).collect()`
unfoldable pub metadata_map :
    List Metadata → TreeMap PackageKey Metadata → TreeMap PackageKey Metadata
unfolding insert key_ord
metadata_map [] m = m
metadata_map (item ∷ rest) m = metadata_map rest (insert item.key item m)

unfoldable pub validate_metadata :
    Model.Lock → List Metadata → Bridged (TreeMap PackageKey Metadata)
unfolding sort_metadata has_repeat key_equal metadata_map
validate_metadata lock metadata =
    let sorted = sort_metadata metadata in
    let supplied = map (λ m. m.key) sorted in
    let locked = map (λ p. p.key) lock.packages in
    reject_if (has_repeat supplied) LakeErrorKind.duplicate_package
    >> reject_if (has_difference locked supplied) LakeErrorKind.missing_package
    >> reject_if (has_difference supplied locked) LakeErrorKind.extra_package
    >> ok (metadata_map sorted [])

-- what json_string pushes for one byte; those past ASCII stand for themselves
unfoldable pub escape_byte : ℕ → Text
unfolding hex
escape_byte b =
    if eqb b b'"'
    then bytes "\\\""
    else if eqb b b'\\'
    then bytes "\\\\"
    else if eqb b 8
    then bytes "\\b"
    else if eqb b 12
    then bytes "\\f"
    else if eqb b 10
    then bytes "\\n"
    else if eqb b 13
    then bytes "\\r"
    else if eqb b 9
    then bytes "\\t"
    else if leb b 0x1f
    then bytes "\\u00" ++ hex (b ∷ [])
    else b ∷ []

unfoldable pub escape_text : Text → Text
unfolding escape_byte
escape_text [] = []
escape_text (b ∷ rest) = escape_byte b ++ escape_text rest

unfoldable pub json_string : Text → Text
unfolding escape_text
json_string value = b'"' ∷ escape_text value ++ b'"' ∷ []

unfoldable pub field_string : Text → Text → Text
unfolding json_string
field_string name value = json_string name ++ b':' ∷ json_string value

unfoldable pub optional_json_string : Option Text → Text
unfolding json_string
optional_json_string none = bytes "null"
optional_json_string (some value) = json_string value

-- `decisions.iter().find(|decision| decision.package() == package.key())`
unfoldable pub find_decision : PackageKey → List PathDecision → Option PathDecision
unfolding key_equal
find_decision key [] = none
find_decision key (d ∷ ds) = if d.package_key == key then some d else find_decision key ds

unfoldable pub encode_runtime_source : Option DecisionSet → PackageKey → Bridged Text
unfolding find_decision field_string
encode_runtime_source none key = err LakeErrorKind.non_bun_runtime_override
encode_runtime_source (some set) key = elim (find_decision key set.decisions) [
  | none ↦ err LakeErrorKind.missing_package
  | some d ↦ ok (bytes ",\"type\":\"path\"," ++ field_string (bytes "dir") d.final_path)
]

unfoldable pub encode_locked_source : Metadata → ResolvedSource → Text
unfolding field_string optional_json_string
encode_locked_source meta (ResolvedSource.git url exact_revision subdir) =
    bytes ",\"type\":\"git\","
    ++ field_string (bytes "url") url
    ++ b',' ∷ field_string (bytes "rev") exact_revision
    ++ bytes ",\"inputRev\":"
    ++ optional_json_string meta.input_revision
    ++ bytes ",\"subDir\":"
    ++ optional_json_string subdir
encode_locked_source meta (ResolvedSource.path_snapshot token) =
    bytes ",\"type\":\"path\"," ++ field_string (bytes "dir") token

-- one round of the loop over the packages, after the comma
unfoldable pub encode_entry :
    TreeMap PackageKey Metadata → Option DecisionSet → Bool → LockedPackage → Bridged Text
unfolding get key_ord field_string optional_json_string encode_runtime_source encode_locked_source
encode_entry metadata decisions runtime p = elim (get p.key metadata) [
  | none ↦ err LakeErrorKind.missing_package
  | some meta ↦
      let source =
        if runtime
        then encode_runtime_source decisions p.key
        else ok (encode_locked_source meta p.resolved) in
      source >>= λ text. ok (
        b'{' ∷ field_string (bytes "name") p.key.name
        ++ b',' ∷ field_string (bytes "scope") p.key.scope
        ++ bytes ",\"inherited\":"
        ++ (if meta.inherited then bytes "true" else bytes "false")
        ++ b',' ∷ field_string (bytes "configFile") meta.config_file
        ++ bytes ",\"manifestFile\":"
        ++ optional_json_string meta.manifest_file
        ++ text
        ++ b'}' ∷ [])
]

unfoldable pub encode_entries :
    TreeMap PackageKey Metadata → Option DecisionSet → Bool → ℕ → List LockedPackage → Bridged Text
unfolding encode_entry
encode_entries metadata decisions runtime index [] = ok []
encode_entries metadata decisions runtime index (p ∷ ps) =
    encode_entry metadata decisions runtime p >>= λ entry.
    encode_entries metadata decisions runtime (suc index) ps >>= λ rest.
    ok ((if ltb 0 index then b',' ∷ [] else []) ++ entry ++ rest)

unfoldable pub encode_manifest :
    Text → Model.Lock → TreeMap PackageKey Metadata → Bool → Bridged Text
unfolding json_string encode_entries
encode_manifest root_name lock metadata runtime =
    encode_entries metadata none runtime 0 lock.packages >>= λ entries. ok (
      bytes "{\"version\":\"1.2.0\",\"fixedToolchain\":true,\"name\":"
      ++ json_string root_name
      ++ bytes ",\"lakeDir\":\".lake\",\"packagesDir\":\".lake/packages\",\"packages\":["
      ++ entries
      ++ bytes "]}"
      ++ 10 ∷ [])

unfoldable pub encode_runtime :
    Model.Lock → DecisionSet → TreeMap PackageKey Metadata → Bridged Text
unfolding encode_entries
encode_runtime lock decisions metadata =
    encode_entries metadata (some decisions) true 0 lock.packages >>= λ entries.
    ok (bytes "{\"version\":\"1.2.0\",\"packages\":[" ++ entries ++ bytes "]}" ++ 10 ∷ [])

unfoldable pub sha256 : Text → Sha256
unfolding new update finalize
sha256 text = finalize (update new text)

pub record ManifestProjection : Type 0 where
  pub canonical_json : Text
  pub digest : Sha256

-- LakeManifestProjectionV1::new
unfoldable pub make_manifest_projection :
    RootDeclaration → Model.Lock → List Metadata → Bridged ManifestProjection
unfolding validate_root_dependencies validate_metadata encode_manifest sha256
make_manifest_projection declaration lock metadata =
    validate_root_dependencies declaration lock >> validate_metadata lock metadata >>= λ m.
    encode_manifest declaration.root_name lock m false >>= λ json.
    ok (record { canonical_json = json; digest = sha256 json })

pub record RuntimeProjection : Type 0 where
  pub canonical_json : Text
  pub digest : Sha256
  pub package_count : ℕ

-- LakeRuntimePackagesProjectionV1::from_bun_decisions
unfoldable pub make_runtime_projection :
    Model.Lock → DecisionSet → List Metadata → Bridged RuntimeProjection
unfolding validate_metadata encode_runtime sha256
make_runtime_projection lock decisions metadata = validate_metadata lock metadata >>= λ m.
    reject_if (not (eqb (length decisions.decisions) (length lock.packages)))
      LakeErrorKind.non_bun_runtime_override
    >> encode_runtime lock decisions m
    >>= λ json. ok (record {
      canonical_json = json;
      digest = sha256 json;
      package_count = length lock.packages;
    })

unfoldable pub validate_managed_runtime_package_files : ℕ → ℕ → Bridged (Unit {0})
validate_managed_runtime_package_files total_files bun_generated_files =
    reject_if (not (eqb total_files 1) || not (eqb bun_generated_files 1))
      LakeErrorKind.non_bun_runtime_override
