-- ===== src/Lake/Projection/Roots.antt =====
-- validate_root_dependencies: the root declaration against the lock.
use leanbun.Base.{
  Bool, true, false, not, ◌||◌, List, [], ◌∷◌, Option, none, some, ◌≡◌, refl, subst, inl, inr,
  Within, ok, err, ◌>>◌, >>=-eq-ok, reject_if-eq-ok, ◌==◌, ==_iff, bytes_equal, arith,
}
use leanbun.Base.TreeMap.{TreeMap, get}
use leanbun.Lock.Model
use leanbun.Lock.Model.{
  Text, PackageKey, key_ord, option_equal, RequestedSource, ResolvedSource, LockedPackage,
}
use leanbun.Reservoir.Document.{locked_map}
use leanbun.Reservoir.Document.Laws.{locked_map-Within}
use leanbun.Lake.Model.{LakeErrorKind, LakeSource, RootDependency, RootDeclaration}
use leanbun.Lake.Declaration.{Bridged}
use leanbun.Lake.Projection.{
  is_other_revision, check_sources, check_dependencies, validate_root_dependencies,
}

-- what the lock says of a source agrees with what the root declares
pub data Agrees : LakeSource → RequestedSource → ResolvedSource → Type 0 where
  any_revision :
      {url : Text} {wanted subdir : Option Text} {exact : Text}
      → Agrees
          (LakeSource.git url none subdir)
          (RequestedSource.git url wanted)
          (ResolvedSource.git url exact subdir)
  exact_revision :
      {url : Text} {wanted subdir : Option Text} {exact : Text}
      → Agrees
          (LakeSource.git url (some exact) subdir)
          (RequestedSource.git url wanted)
          (ResolvedSource.git url exact subdir)
  same_path :
      {directory : Text}
      → Agrees
          (LakeSource.path directory)
          (RequestedSource.path_snapshot directory)
          (ResolvedSource.path_snapshot directory)
  registered :
      {requested : RequestedSource} {resolved : ResolvedSource}
      → Agrees LakeSource.reservoir requested resolved

git-Agrees :
    (url requested resolved exact : Text) (revision wanted subdir locked : Option Text)
    → url ≡ requested
    → url ≡ resolved
    → is_other_revision revision exact ≡ false
    → subdir ≡ locked
    → Agrees
        (LakeSource.git url revision subdir)
        (RequestedSource.git requested wanted)
        (ResolvedSource.git resolved exact locked)
unfolding is_other_revision
git-Agrees url requested resolved exact none wanted subdir locked e f h g =
    subst
      (λ u.
        Agrees (LakeSource.git url none subdir) (RequestedSource.git u wanted)
          (ResolvedSource.git resolved exact locked))
      e
      (subst
        (λ u.
          Agrees (LakeSource.git url none subdir) (RequestedSource.git url wanted)
            (ResolvedSource.git u exact locked))
        f
        (subst
          (λ s.
            Agrees (LakeSource.git url none subdir) (RequestedSource.git url wanted)
              (ResolvedSource.git url exact s))
          g any_revision))
git-Agrees url requested resolved exact (some revision) wanted subdir locked e f h g =
    let same : revision ≡ exact = (==_iff revision exact).0 (not_other (revision == exact) h) in
    subst
      (λ u.
        Agrees (LakeSource.git url (some revision) subdir) (RequestedSource.git u wanted)
          (ResolvedSource.git resolved exact locked))
      e
      (subst
        (λ u.
          Agrees (LakeSource.git url (some revision) subdir) (RequestedSource.git url wanted)
            (ResolvedSource.git u exact locked))
        f
        (subst
          (λ s.
            Agrees (LakeSource.git url (some revision) subdir) (RequestedSource.git url wanted)
              (ResolvedSource.git url exact s))
          g
          (subst
            (λ r.
              Agrees (LakeSource.git url (some revision) subdir) (RequestedSource.git url wanted)
                (ResolvedSource.git url r subdir))
            same exact_revision)))
  where
    not_other : (b : Bool) → not b ≡ false → b ≡ true
    not_other b t = ground arith

four :
    (p q r s : Bool)
    → (not p || not q || r || not s) ≡ false
    → (p ≡ true) × (q ≡ true) × (r ≡ false) × (s ≡ true)
four p q r s h = (ground arith, ground arith, ground arith, ground arith)

two : (p q : Bool) → (not p || not q) ≡ false → (p ≡ true) × (q ≡ true)
two p q h = (ground arith, ground arith)

check_sources-Agrees :
    (source : LakeSource) (requested : RequestedSource) (resolved : ResolvedSource)
    → check_sources source requested resolved ≡ ok tt
    → Agrees source requested resolved
unfolding check_sources
check_sources-Agrees (LakeSource.git url revision subdir) (RequestedSource.git requested wanted)
      (ResolvedSource.git resolved exact locked) h =
    let (a, b, c, d) =
      four (url == requested) (url == resolved) (is_other_revision revision exact)
        (subdir == locked) (reject_if-eq-ok _ LakeErrorKind.source_value_drift h) in
    git-Agrees url requested resolved exact revision wanted subdir locked
      ((==_iff url requested).0 a) ((==_iff url resolved).0 b) c ((==_iff subdir locked).0 d)
check_sources-Agrees (LakeSource.path directory) (RequestedSource.path_snapshot token)
      (ResolvedSource.path_snapshot resolved) h =
    let (a, b) =
      two (directory == token) (directory == resolved)
        (reject_if-eq-ok _ LakeErrorKind.source_value_drift h) in
    subst
      (λ t.
        Agrees (LakeSource.path directory) (RequestedSource.path_snapshot t)
          (ResolvedSource.path_snapshot resolved))
      ((==_iff directory token).0 a)
      (subst
        (λ t.
          Agrees (LakeSource.path directory) (RequestedSource.path_snapshot directory)
            (ResolvedSource.path_snapshot t))
        ((==_iff directory resolved).0 b) same_path)
check_sources-Agrees LakeSource.reservoir requested resolved h = registered
check_sources-Agrees (LakeSource.git url revision subdir) (RequestedSource.git r w)
      (ResolvedSource.path_snapshot t) h =
    cc
check_sources-Agrees (LakeSource.git url revision subdir) (RequestedSource.path_snapshot t) resolved
      h =
    cc
check_sources-Agrees (LakeSource.path d) (RequestedSource.git r w) resolved h = cc
check_sources-Agrees (LakeSource.path d) (RequestedSource.path_snapshot t)
      (ResolvedSource.git u e s) h =
    cc

check_dependencies-Agrees :
    (locked : TreeMap PackageKey LockedPackage) (ds : List RootDependency)
    → check_dependencies locked ds ≡ ok tt
    → (d : RootDependency) → Within d ds
    → (p : LockedPackage) × (get d.key locked ≡ some p) × Agrees d.source p.requested p.resolved
unfolding check_dependencies
check_dependencies-Agrees locked [] h d w = absurd w
check_dependencies-Agrees locked (x ∷ ds) h d w =
    by_entry (λ rest v. check_dependencies-Agrees locked ds rest d v) (get x.key locked) refl h w
  where
    by_entry :
        (check_dependencies locked ds ≡ ok tt
          → Within d ds
          → (p : LockedPackage) × (get d.key locked ≡ some p)
            × Agrees d.source p.requested p.resolved)
        → (o : Option LockedPackage) → get x.key locked ≡ o
        → elim o as (λ _. Bridged (Unit {0})) [
          | none ↦ err LakeErrorKind.missing_package
          | some p ↦ check_sources x.source p.requested p.resolved >> check_dependencies locked ds
        ]
          ≡ ok tt
        → Within d (x ∷ ds)
        → (p : LockedPackage) × (get d.key locked ≡ some p) × Agrees d.source p.requested p.resolved
    by_entry further none e t v = cc
    by_entry further (some p) e t v =
        let (u, first, rest) =
          >>=-eq-ok (check_sources x.source p.requested p.resolved)
            (λ _. check_dependencies locked ds) t in
        elim v [
          | inl same ↦
              subst
                (λ (y : RootDependency).
                  (q : LockedPackage) × (get y.key locked ≡ some q)
                  × Agrees y.source q.requested q.resolved)
                same (p, e, check_sources-Agrees x.source p.requested p.resolved first)
          | inr inside ↦ further rest inside
        ]

-- Where a root declaration is accepted for a lock, each of its dependencies has a package of the lock with
-- its key: for a Git source one requested and resolved at its URL, with its subdirectory and, if it
-- names a revision, at that revision; for a path one requested and resolved at that path.
pub validate_root_dependencies-Agrees :
    (declaration : RootDeclaration) (lock : Model.Lock)
    → validate_root_dependencies declaration lock ≡ ok tt
    → (d : RootDependency) → Within d declaration.dependencies
    → (p : LockedPackage) × Within p lock.packages
      × (p.key ≡ d.key)
      × Agrees d.source p.requested p.resolved
unfolding validate_root_dependencies get
validate_root_dependencies-Agrees declaration lock h d w =
    let (p, at, agrees) =
      check_dependencies-Agrees (locked_map lock.packages []) declaration.dependencies h d w in
    elim (locked_map-Within lock.packages [] d.key p at) [
      | inl (inside, same) ↦ (p, inside, same, agrees)
      | inr never ↦ cc
    ]
