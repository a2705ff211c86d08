-- ===== src/Lock/Package.antt =====
-- LockedLeanPackageV1::new of rust/crates/leanbun-lock/src/lock_v1.rs.
use leanbun.Base.{
  Bool, true, false, not, ◌||◌, Option, none, length, any, ltb, eqb, ok, ◌>>◌, reject_if, ◌==◌,
  bytes_equal, sort_by, has_repeat, compare_bytes,
}
use leanbun.Lock.Model.{
  Sha256, key_equal, compare_keys, RequestedSource, ResolvedSource, LockedPackage, LockErrorKind,
}
use leanbun.Lock.Fields.{Made}

-- `matches!(resolved, Git { .. }) && download_integrity.is_none()`
unfoldable pub lacks_integrity : ResolvedSource → Option Sha256 → Bool
lacks_integrity (ResolvedSource.git _ _ _) none = true
lacks_integrity _ _ = false

unfoldable pub sources_agree : RequestedSource → ResolvedSource → Bool
unfolding bytes_equal
sources_agree (RequestedSource.git requested _) (ResolvedSource.git resolved _ _) =
    requested == resolved
sources_agree (RequestedSource.path_snapshot requested) (ResolvedSource.path_snapshot resolved) =
    requested == resolved
sources_agree _ _ = false

-- the tests that come before the sorting
unfoldable pub check_arguments : LockedPackage → Made (Unit {0})
unfolding lacks_integrity sources_agree
check_arguments p =
    reject_if (ltb 4096 (length p.dependencies) || ltb 4096 (length p.provenance_digests))
      LockErrorKind.limit_exceeded
    >> reject_if (lacks_integrity p.resolved p.download_integrity) LockErrorKind.invalid_field
    >> reject_if (not (sources_agree p.requested p.resolved)) LockErrorKind.incompatible_provenance

-- the tests on the sorted lists
unfoldable pub check_sorted : LockedPackage → Made (Unit {0})
unfolding key_equal bytes_equal has_repeat
check_sorted p =
    reject_if (has_repeat p.dependencies) LockErrorKind.duplicate_dependency
    >> reject_if (any (λ d. d == p.key) p.dependencies) LockErrorKind.dependency_cycle
    >> reject_if (has_repeat p.provenance_digests) LockErrorKind.duplicate_provenance
    >> reject_if (eqb (length p.provenance_digests) 0) LockErrorKind.invalid_field

-- the dependencies and the provenance digests in order
unfoldable pub sort_fields : LockedPackage → LockedPackage
unfolding sort_by compare_keys compare_bytes
sort_fields p = record p {
  dependencies = sort_by compare_keys p.dependencies;
  provenance_digests = sort_by compare_bytes p.provenance_digests;
}

-- LockedLeanPackageV1::new: the argument holds the constructor's arguments as fields
unfoldable pub make_package : LockedPackage → Made LockedPackage
unfolding check_arguments check_sorted sort_fields
make_package arguments =
    check_arguments arguments >> check_sorted (sort_fields arguments) >> ok (sort_fields arguments)
