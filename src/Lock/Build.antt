-- ===== src/Lock/Build.antt =====
-- LeanBunLockV1::new of rust/crates/leanbun-lock/src/lock_v1.rs.
pub mod Laws
use leanbun.Base.{
  ℕ, Bool, false, List, map, length, ltb, Result, ok, ◌>>◌, reject_if, sort_by, has_repeat,
}
use leanbun.Base.Ascending.{by_key}
use leanbun.Lock.Model
use leanbun.Lock.Model.{
  Text, Sha256, PackageKey, key_equal, key_ord, compare_keys, LockedPackage, LockErrorKind,
}
use leanbun.Lock.Fields.{Made, validate_atom, validate_git_revision}
use leanbun.Lock.Graph.{validate_graph}
use leanbun.Lock.Hash.{hash_graph}

-- `packages.sort_by(|left, right| left.key.cmp(&right.key))`
unfoldable pub sort_packages : List LockedPackage → List LockedPackage
unfolding sort_by key_ord
sort_packages packages = sort_by (by_key (λ p. p.key)) packages

unfoldable pub check_packages : List LockedPackage → Made (Unit {0})
unfolding has_repeat key_equal validate_graph
check_packages packages =
    reject_if (has_repeat (map (λ p. p.key) packages)) LockErrorKind.duplicate_package
    >> validate_graph packages

-- LeanBunLockV1::new
unfoldable pub make_lock :
    Text → Text → Text → Sha256 → Sha256 → List LockedPackage → Made Model.Lock
unfolding validate_atom validate_git_revision sort_packages check_packages hash_graph
make_lock toolchain githash lake config declaration packages =
    validate_atom toolchain 4096 false
    >> validate_git_revision githash
    >> validate_atom lake 256 false
    >> reject_if (ltb 4096 (length packages)) LockErrorKind.limit_exceeded
    >> check_packages (sort_packages packages)
    >> ok (record {
      lean_toolchain = toolchain;
      lean_compiler_githash = githash;
      lake_version = lake;
      root_config_sha256 = config;
      root_declaration_sha256 = declaration;
      packages = sort_packages packages;
      graph_sha256 = hash_graph (sort_packages packages);
    })
