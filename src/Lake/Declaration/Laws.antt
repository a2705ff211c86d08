-- ===== src/Lake/Declaration/Laws.antt =====
-- What holds of the root declarations that are accepted.
use leanbun.Base.{
  List, map, length, ltb, ◌≡◌, refl, subst, ok, ◌>>◌, >>=-eq-ok, reject_if, reject_if-eq-ok,
  has_repeat, Within, Within-sort_by, sym, not, bytes_equal, ◌||◌, ◌==◌, bytes, false,
}
use leanbun.Base.Ascending.{Ascends, by_key, sort_by-IsSorted, Ascends-of_sorted}
use leanbun.Lock.Model.{Text, key_equal, key_ord}
use leanbun.Lake.Model.{LakeErrorKind, RootDependency, RootDeclaration}
use leanbun.Lake.Declaration.{
  validate_text, make_declaration, make_dependency, sort_dependencies, declaration_identity,
}

pub record IsSoundDeclaration (r : RootDeclaration) : Type 0 where
  pub ascends : Ascends (λ (d : RootDependency). d.key) r.dependencies
  pub identified : r.identity ≡ declaration_identity r.root_name r.config_file r.dependencies

-- a dependency that its constructor makes of its own parts
abbrev pub IsDependency : RootDependency → Type 0
IsDependency d = make_dependency d.key d.version d.source ≡ ok d

-- the parts of a successful construction that concern the dependencies
record IsMade (root_name config_file : Text) (dependencies : List RootDependency)
    (r : RootDeclaration) : Type 0 where
  distinct :
      has_repeat (map (λ (d : RootDependency). d.key) (sort_dependencies dependencies)) ≡ false
  is :
      record {
        root_name = root_name;
        config_file = config_file;
        dependencies = sort_dependencies dependencies;
        identity = declaration_identity root_name config_file (sort_dependencies dependencies);
      }
      ≡ r

module _ (root_name config_file : Text) (dependencies : List RootDependency) (r : RootDeclaration)
    (made : make_declaration root_name config_file dependencies ≡ ok r) where
  make_declaration-IsMade : IsMade root_name config_file dependencies r
  unfolding make_declaration
  make_declaration-IsMade =
      let fields =
        validate_text root_name 256 false
        >> reject_if
            (not (config_file == bytes "lakefile.toml" || config_file == bytes "lakefile.lean"))
            LakeErrorKind.invalid_field
        >> reject_if (ltb 4096 (length dependencies)) LakeErrorKind.limit_exceeded in
      let repeats =
        reject_if
          (has_repeat (map (λ (d : RootDependency). d.key) (sort_dependencies dependencies)))
          LakeErrorKind.duplicate_dependency in
      let (u, tested, is) = >>=-eq-ok (fields >> repeats) _ made in
      let (v, earlier, distinct) = >>=-eq-ok fields (λ _. repeats) tested in
      record { distinct = reject_if-eq-ok _ LakeErrorKind.duplicate_dependency distinct; is = cc }

  pub make_declaration-IsSoundDeclaration : IsSoundDeclaration r
  unfolding sort_dependencies
  make_declaration-IsSoundDeclaration =
      let m = make_declaration-IsMade in
      subst IsSoundDeclaration m.is (record {
        ascends =
            Ascends-of_sorted (λ (d : RootDependency). d.key) (sort_dependencies dependencies)
              (sort_by-IsSorted (λ (d : RootDependency). d.key) dependencies) m.distinct;
        identified = refl;
      })

  pub make_declaration-Within :
      (d : RootDependency) → Within d r.dependencies → Within d dependencies
  unfolding sort_dependencies
  make_declaration-Within d w =
      Within-sort_by (by_key (λ (d : RootDependency). d.key)) d dependencies (
        subst (λ (x : RootDeclaration). Within d x.dependencies) (sym make_declaration-IsMade.is) w)
