-- ===== src/Lock/Build/Laws.antt =====
-- What holds of every lock that the constructor returns.
use leanbun.Base.{
  ℕ, ◌≤◌, false, List, map, length, ltb, ◌≡◌, refl, subst, ok, ◌>>◌, >>=-eq-ok, reject_if,
  reject_if-eq-ok, has_repeat, Within, some, get_elem?,
}
use leanbun.Base.Ascending.{Ascends, sort_by-IsSorted, Ascends-of_sorted, Ascends-distinct}
use leanbun.Lock.Model
use leanbun.Lock.Model.{Text, Sha256, PackageKey, key_equal, key_ord, LockedPackage, LockErrorKind}
use leanbun.Lock.Fields.{validate_atom, validate_git_revision}
use leanbun.Lock.Graph.{validate_graph}
use leanbun.Lock.Graph.Chains.{Chain, validate_graph-Chain, validate_graph_closed}
use leanbun.Lock.Hash.{hash_graph}
use leanbun.Lock.Build.{sort_packages, check_packages, make_lock}

pub record IsSoundLock (l : Model.Lock) : Type 0 where
  pub ascends : Ascends (λ (p : LockedPackage). p.key) l.packages
  pub closed :
      (i : ℕ) (p : LockedPackage) (d : PackageKey)
      → get_elem? l.packages i ≡ some p
      → Within d p.dependencies
      → (j : ℕ) × (q : LockedPackage) × (get_elem? l.packages j ≡ some q) × (q.key ≡ d)
  pub shallow : {i n : ℕ} → Chain l.packages i n → n ≤ 128
  pub digest : l.graph_sha256 ≡ hash_graph l.packages

-- the parts of a successful construction
pub record IsMade (toolchain githash lake : Text) (config declaration : Sha256)
    (packages : List LockedPackage) (l : Model.Lock) : Type 0 where
  pub atom_toolchain : validate_atom toolchain 4096 false ≡ ok tt
  pub revision : validate_git_revision githash ≡ ok tt
  pub atom_lake : validate_atom lake 256 false ≡ ok tt
  pub few : ltb 4096 (length packages) ≡ false
  pub checked : check_packages (sort_packages packages) ≡ ok tt
  pub is :
      record {
        lean_toolchain = toolchain;
        lean_compiler_githash = githash;
        lake_version = lake;
        root_config_sha256 = config;
        root_declaration_sha256 = declaration;
        packages = sort_packages packages;
        graph_sha256 = hash_graph (sort_packages packages);
      }
      ≡ l

module _ (toolchain githash lake : Text) (config declaration : Sha256)
    (packages : List LockedPackage) (l : Model.Lock)
    (made : make_lock toolchain githash lake config declaration packages ≡ ok l) where
  pub make_lock-IsMade : IsMade toolchain githash lake config declaration packages l
  unfolding make_lock
  make_lock-IsMade =
      let (u5, t5, is) =
        >>=-eq-ok
          (validate_atom toolchain 4096 false
            >> validate_git_revision githash
            >> validate_atom lake 256 false
            >> reject_if (ltb 4096 (length packages)) LockErrorKind.limit_exceeded
            >> check_packages (sort_packages packages))
          _ made in
      let (u4, t4, checked) =
        >>=-eq-ok
          (validate_atom toolchain 4096 false
            >> validate_git_revision githash
            >> validate_atom lake 256 false
            >> reject_if (ltb 4096 (length packages)) LockErrorKind.limit_exceeded)
          (λ _. check_packages (sort_packages packages)) t5 in
      let (u3, t3, few) =
        >>=-eq-ok
          (validate_atom toolchain 4096 false
            >> validate_git_revision githash
            >> validate_atom lake 256 false)
          (λ _. reject_if (ltb 4096 (length packages)) LockErrorKind.limit_exceeded) t4 in
      let (u2, t2, atom) =
        >>=-eq-ok (validate_atom toolchain 4096 false >> validate_git_revision githash)
          (λ _. validate_atom lake 256 false) t3 in
      let (u1, t1, revision) =
        >>=-eq-ok (validate_atom toolchain 4096 false) (λ _. validate_git_revision githash) t2 in
      record {
        atom_toolchain = t1;
        revision = revision;
        atom_lake = atom;
        few = reject_if-eq-ok (ltb 4096 (length packages)) LockErrorKind.limit_exceeded few;
        checked = checked;
        is = cc;
      }

  -- A lock that the constructor returns has its packages in strictly ascending order of their keys;
  -- each dependency is the key of a package of the lock, no chain of dependencies has more than 128
  -- packages, and the digest is that of the packages.
  pub make_lock-IsSoundLock : IsSoundLock l
  unfolding check_packages sort_packages
  make_lock-IsSoundLock =
      let m = make_lock-IsMade in
      let (u, tested, accepted) =
        >>=-eq-ok
          (reject_if (has_repeat (map (λ (p : LockedPackage). p.key) (sort_packages packages)))
            LockErrorKind.duplicate_package)
          (λ _. validate_graph (sort_packages packages)) m.checked in
      let ascends : Ascends (λ (p : LockedPackage). p.key) (sort_packages packages) =
        Ascends-of_sorted (λ (p : LockedPackage). p.key) (sort_packages packages)
          (sort_by-IsSorted (λ (p : LockedPackage). p.key) packages)
          (reject_if-eq-ok _ LockErrorKind.duplicate_package tested) in
      subst IsSoundLock m.is (record {
        ascends = ascends;
        closed = validate_graph_closed (sort_packages packages) tt accepted;
        shallow = λ chain.
            validate_graph-Chain (sort_packages packages) tt accepted
              (λ i j p q at_p at_q same.
                Ascends-distinct (λ (x : LockedPackage). x.key) (sort_packages packages) i j p q
                  ascends at_p at_q same)
              chain;
        digest = refl;
      })
