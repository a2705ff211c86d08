-- ===== src/Examples/Lake.antt =====
-- The text of a probe, and the root declaration that it gives.
use leanbun.Base.{ℕ, List, [], ◌∷◌, ◌≡◌, refl, ok, err, none, bytes, Within}
use leanbun.Lock.Model.{PackageKey}
use leanbun.Lake.Model.{LakeErrorKind, LakeSource, RootDependency, RootDeclaration}
use leanbun.Lake.Declaration.{declaration_identity}
use leanbun.Lake.Declaration.Laws.{IsSoundDeclaration, IsDependency}
use leanbun.Lake.Probe.{parse_root_declaration_probe}
use leanbun.Lake.Probe.Laws.{parse_root_declaration_probe-eq_ok}

abbrev text : List ℕ
text =
    bytes
      "{\"schemaVersion\":1,\"rootName\":\"r\",\"configFile\":\"lakefile.toml\",\"dependencies\":[{\"name\":\"b\",\"scope\":\"s\",\"version\":null,\"source\":{\"kind\":\"reservoir\"}},{\"name\":\"a\",\"scope\":\"s\",\"version\":null,\"source\":{\"kind\":\"path\",\"directory\":\"d/a\"}}]}"

abbrev key : List ℕ → PackageKey
key name = record { scope = bytes "s"; name = name }

abbrev dependencies : List RootDependency
dependencies =
    record { key = key (bytes "a"); version = none; source = LakeSource.path (bytes "d/a") }
    ∷ record { key = key (bytes "b"); version = none; source = LakeSource.reservoir }
    ∷ []

abbrev declaration : RootDeclaration
declaration = record {
  root_name = bytes "r";
  config_file = bytes "lakefile.toml";
  dependencies = dependencies;
  identity = declaration_identity (bytes "r") (bytes "lakefile.toml") dependencies;
}

text_read : parse_root_declaration_probe text ≡ ok declaration
unfolding parse_root_declaration_probe
text_read = refl

unknown_field :
    parse_root_declaration_probe (bytes "{\"schemaVersion\":1,\"rootName\":\"r\"}")
    ≡ err LakeErrorKind.malformed_probe_output
unfolding parse_root_declaration_probe
unknown_field = refl

parse_root_declaration_probe-eq_ok_example :
    IsSoundDeclaration declaration
    × ((d : RootDependency) → Within d declaration.dependencies → IsDependency d)
parse_root_declaration_probe-eq_ok_example =
    parse_root_declaration_probe-eq_ok text declaration text_read
