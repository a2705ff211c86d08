-- ===== src/Examples/Projecting.antt =====
-- The projections of a lock of two packages, and the paths that Lake reports.
use leanbun.Base.{List, [], ◌∷◌, none, true, false, ◌++◌, ◌≡◌, refl, ok, err, bytes, Within, inl}
use leanbun.Lock.Model.{Text, LockedPackage, key_ord}
use leanbun.Lock.Provenance.{PathDecision}
use leanbun.Base.Ascending.{Ascends}
use leanbun.Lake.Model.{LakeErrorKind, LakeSource, RootDependency, RootDeclaration}
use leanbun.Lake.Declaration.{declaration_identity}
use leanbun.Lake.Observed.{ObservedPath, PathObservation, paths_digest, compare_paths}
use leanbun.Lake.Observed.Laws.{placed, decided_places, compare_paths-eq_ok}
use leanbun.Lake.Projection.{
  Metadata, metadata_map, validate_metadata, validate_root_dependencies, RuntimeProjection,
  make_runtime_projection, json_string, sort_metadata,
}
use leanbun.Lake.Projection.Laws.{make_runtime_projection-total}
use leanbun.Codec.Json.{StrictJson}
use leanbun.Codec.Parser.{parse_strict_json}
use leanbun.Codec.Text.{is_utf8}
use leanbun.Lake.Projection.Strings.{parse_strict_json-json_string}
use leanbun.Lake.Projection.Roots.{Agrees, validate_root_dependencies-Agrees}
use leanbun.Examples.Lock.{lock, key, decided, each_decided}

escaped : json_string (bytes "a\"\n") ≡ bytes "\"a\\\"\\n\""
unfolding json_string
escaped = refl

control_escaped : json_string (1 ∷ []) ≡ bytes "\"\\u0001\""
unfolding json_string
control_escaped = refl

abbrev awkward : Text
awkward = bytes "a\"\\/\n" ++ 1 ∷ 0x1f ∷ 0x7f ∷ 0xc3 ∷ 0xa9 ∷ []

awkward_valid : is_utf8 awkward ≡ true
unfolding is_utf8
awkward_valid = refl

parse_strict_json-json_string_example :
    parse_strict_json (json_string awkward) ≡ ok (StrictJson.string awkward)
parse_strict_json-json_string_example = parse_strict_json-json_string awkward awkward_valid

abbrev item : Text → Metadata
item name = record {
  key = key name;
  inherited = false;
  config_file = bytes "lakefile.toml";
  manifest_file = none;
  input_revision = none;
}

abbrev metadata : List Metadata
metadata = item (bytes "b") ∷ item (bytes "a") ∷ []

metadata_accepted : validate_metadata lock metadata ≡ ok (metadata_map (sort_metadata metadata) [])
unfolding validate_metadata
metadata_accepted = refl

metadata_missing :
    validate_metadata lock (item (bytes "b") ∷ []) ≡ err LakeErrorKind.missing_package
unfolding validate_metadata
metadata_missing = refl

make_runtime_projection-total_example :
    (r : RuntimeProjection) × (make_runtime_projection lock decided metadata ≡ ok r)
make_runtime_projection-total_example =
    make_runtime_projection-total lock decided metadata (metadata_map (sort_metadata metadata) [])
      each_decided metadata_accepted

abbrev observed : Text → Text → ObservedPath
observed name path = record { key = key name; path = path }

abbrev observation : PathObservation
observation = record {
  paths = observed (bytes "a") (bytes "/g/a") ∷ observed (bytes "b") (bytes "/g/b") ∷ [];
  digest =
      paths_digest (observed (bytes "a") (bytes "/g/a") ∷ observed (bytes "b") (bytes "/g/b") ∷ []);
}

paths_accepted :
    compare_paths decided
      (observed (bytes "b") (bytes "/g/b") ∷ observed (bytes "a") (bytes "/g/a") ∷ [])
    ≡ ok observation
unfolding compare_paths
paths_accepted = refl

path_differs :
    compare_paths decided
      (observed (bytes "b") (bytes "/g/b") ∷ observed (bytes "a") (bytes "/g/c") ∷ [])
    ≡ err LakeErrorKind.workspace_path_mismatch
unfolding compare_paths
path_differs = refl

keys_ascend : Ascends (λ (d : PathDecision). d.package_key) decided.decisions
unfolding key_ord
keys_ascend = (refl, tt)

compare_paths-eq_ok_example : placed observation.paths ≡ decided_places decided.decisions
compare_paths-eq_ok_example =
    compare_paths-eq_ok decided
      (observed (bytes "b") (bytes "/g/b") ∷ observed (bytes "a") (bytes "/g/a") ∷ []) observation
      keys_ascend paths_accepted

abbrev dependency : RootDependency
dependency = record { key = key (bytes "a"); version = none; source = LakeSource.path (bytes "a") }

abbrev declaration : RootDeclaration
declaration = record {
  root_name = bytes "r";
  config_file = bytes "lakefile.toml";
  dependencies = dependency ∷ [];
  identity = declaration_identity (bytes "r") (bytes "lakefile.toml") (dependency ∷ []);
}

roots_accepted : validate_root_dependencies declaration lock ≡ ok tt
unfolding validate_root_dependencies
roots_accepted = refl

validate_root_dependencies-Agrees_example :
    (p : LockedPackage) × Within p lock.packages
    × (p.key ≡ key (bytes "a"))
    × Agrees (LakeSource.path (bytes "a")) p.requested p.resolved
validate_root_dependencies-Agrees_example =
    validate_root_dependencies-Agrees declaration lock roots_accepted dependency (inl refl)
