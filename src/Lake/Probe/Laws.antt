-- ===== src/Lake/Probe/Laws.antt =====
-- What holds of the root declarations that are read from a probe's text.
use leanbun.Base.{
  List, [], ◌∷◌, ◌≡◌, refl, subst, ok, err, false, ◌>>=◌, ◌>>◌, >>=-eq-ok, Within, All, All-Within,
  Option, reject_if, not, eqb, ltb, bytes, true,
}
use leanbun.Codec.Json.{StrictJson, Items}
use leanbun.Lock.Model.{Text, PackageKey}
use leanbun.Lake.Model.{LakeErrorKind, LakeSource, RootDependency, RootDeclaration}
use leanbun.Lake.Declaration.{
  Bridged, make_dependency, make_declaration, validate_optional, validate_text, validate_source,
}
use leanbun.Lake.Declaration.Laws.{
  IsSoundDeclaration, IsDependency, make_declaration-IsSoundDeclaration, make_declaration-Within,
}
use leanbun.Lock.Fields.{make_key}
use leanbun.Codec.Parser.{parse_strict_json}
use leanbun.Lake.Probe.{
  object, array, string, nullable_string, integer, exact_fields, get_field, or_malformed, present,
  read_source, count_items, read_dependency, read_dependencies, parse_root_declaration_probe,
}

-- what is returned, if anything, has the property
unfoldable Ensures : {A : Type 0} → (A → Type 0) → Bridged A → Type 0
Ensures {A} P m = (a : A) → m ≡ ok a → P a

Ensures-bind :
    {A B : Type 0} (P : B → Type 0) (m : Bridged A) (f : A → Bridged B)
    → ((a : A) → Ensures P (f a))
    → Ensures P (m >>= f)
unfolding Ensures
Ensures-bind P (ok a) f h = h a
Ensures-bind P (err e) f h = λ b k. cc

make_dependency-IsDependency :
    (key : PackageKey) (version : Option Text) (source : LakeSource)
    → Ensures IsDependency (make_dependency key version source)
unfolding Ensures make_dependency
make_dependency-IsDependency key version source d h =
    let (u, tested, is) =
      >>=-eq-ok
        (validate_optional (λ value. validate_text value 4096 false) version
          >> validate_source source)
        _ h in
    let same : record { key = key; version = version; source = source } ≡ d = cc in
    subst IsDependency same (rw tested refl)

read_dependency-IsDependency : (value : StrictJson) → Ensures IsDependency (read_dependency value)
unfolding read_dependency
read_dependency-IsDependency value = Ensures-bind _ (object value) _ (λ fields.
    Ensures-bind _
      (exact_fields fields (bytes "name" ∷ bytes "scope" ∷ bytes "source" ∷ bytes "version" ∷ [])
        >> string (get_field (bytes "scope") fields) 256 true)
      _
      (λ scope. Ensures-bind _ (string (get_field (bytes "name") fields) 256 false) _ (λ name.
        Ensures-bind _ (or_malformed (make_key scope name)) _ (λ key.
          Ensures-bind _ (nullable_string (get_field (bytes "version") fields) 4096) _ (λ version.
            Ensures-bind _ (present (get_field (bytes "source") fields)) _ (λ source.
              Ensures-bind _ (object source) _ (λ source_fields.
                Ensures-bind _ (read_source source_fields) _
                  (λ source. make_dependency-IsDependency key version source))))))))

read_dependencies-All : (values : Items) → Ensures (All IsDependency) (read_dependencies values)
unfolding Ensures read_dependencies
read_dependencies-All Items.no_items ds h = subst (All IsDependency) (value h) tt
  where
    value : ◌≡◌ {A = Bridged (List RootDependency)} (ok []) (ok ds) → [] ≡ ds
    value e = cc
read_dependencies-All (Items.item v rest) ds h =
    let (d, first, later) = >>=-eq-ok (read_dependency v) _ h in
    let (others, further, is) = >>=-eq-ok (read_dependencies rest) _ later in
    let same : d ∷ others ≡ ds = cc in
    subst (All IsDependency) same
      (read_dependency-IsDependency v d first, read_dependencies-All rest others further)

IsRead : RootDeclaration → Type 0
IsRead r = IsSoundDeclaration r × ((d : RootDependency) → Within d r.dependencies → IsDependency d)

declared :
    (root_name config_file : Text) (values : Items)
    → Ensures IsRead (
        reject_if (ltb 4096 (count_items values)) LakeErrorKind.limit_exceeded
        >> read_dependencies values
        >>= λ ds. make_declaration root_name config_file ds)
unfolding Ensures IsRead
declared root_name config_file values r h =
    let limit = reject_if (ltb 4096 (count_items values)) LakeErrorKind.limit_exceeded in
    let (ds, before, made) = >>=-eq-ok (limit >> read_dependencies values) _ h in
    let (u, few, first) = >>=-eq-ok limit (λ _. read_dependencies values) before in
    (
      make_declaration-IsSoundDeclaration root_name config_file ds r made,
      λ d w.
          All-Within IsDependency ds (read_dependencies-All values ds first) d
            (make_declaration-Within root_name config_file ds r made d w),
    )

probe-IsRead : (text : Text) → Ensures IsRead (parse_root_declaration_probe text)
unfolding parse_root_declaration_probe
probe-IsRead text = Ensures-bind _ (or_malformed (parse_strict_json text)) _ (λ value.
    Ensures-bind _ (object value) _ (λ root.
      Ensures-bind _
        (exact_fields root (
            bytes "configFile"
            ∷ bytes "dependencies"
            ∷ bytes "rootName"
            ∷ bytes "schemaVersion"
            ∷ [])
          >> integer (get_field (bytes "schemaVersion") root))
        _
        (λ version.
          Ensures-bind _
            (reject_if (not (eqb version 1)) LakeErrorKind.malformed_probe_output
              >> string (get_field (bytes "rootName") root) 256 false)
            _
            (λ root_name.
              Ensures-bind _ (string (get_field (bytes "configFile") root) 256 false) _
                (λ config_file.
                  Ensures-bind _ (array (get_field (bytes "dependencies") root)) _
                    (λ values. declared root_name config_file values))))))

-- A root declaration that is read from a probe's text has dependencies with strictly ascending keys, each
-- accepted by the constructor of dependencies, and its identity is that of its name, file and
-- dependencies.
pub parse_root_declaration_probe-eq_ok :
    (text : Text) (r : RootDeclaration)
    → parse_root_declaration_probe text ≡ ok r
    → IsSoundDeclaration r × ((d : RootDependency) → Within d r.dependencies → IsDependency d)
unfolding Ensures IsRead
parse_root_declaration_probe-eq_ok text = probe-IsRead text
