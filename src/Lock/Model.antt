-- ===== src/Lock/Model.antt =====
-- The data of rust/crates/leanbun-lock/src/lock_v1.rs. A `String` is its list of bytes, a digest its
-- list of 32 bytes, a canonical URL its text.
use Prim.Native.Nat.{Ordering}
use Prim.Native.Nat.Ordering.{lt, eq, gt}
use leanbun.Base.{
  ℕ, List, Option, Equal, Ord, ◌≡◌, compare_bytes, compare_bytes_refl, compare_bytes-eq,
  compare_bytes-gt, compare_bytes_trans, ℕ_discrete, arith,
}

abbrev pub Text : Type 0
Text = List ℕ

abbrev pub Sha256 : Type 0
Sha256 = List ℕ

pub record PackageKey : Type 0 where
  pub scope : Text
  pub name : Text

pub PackageKey-discrete : Discrete PackageKey
PackageKey-discrete = hlevel ℕ_discrete

option_discrete : Discrete (Option Text)
option_discrete = hlevel ℕ_discrete

keys_discrete : Discrete (List PackageKey)
keys_discrete = hlevel ℕ_discrete

instance unfoldable pub key_equal : Equal PackageKey
unfolding PackageKey-discrete ℕ_discrete
key_equal = record { discrete = PackageKey-discrete }

instance unfoldable pub keys_equal : Equal (List PackageKey)
unfolding keys_discrete ℕ_discrete
keys_equal = record { discrete = keys_discrete }

instance unfoldable pub option_equal : Equal (Option Text)
unfolding option_discrete ℕ_discrete
option_equal = record { discrete = option_discrete }

-- the derived order: the scope, then the name
unfoldable pub compare_keys : PackageKey → PackageKey → Ordering
compare_keys a b = elim (compare_bytes a.scope b.scope) [
  | lt ↦ lt
  | gt ↦ gt
  | eq ↦ compare_bytes a.name b.name
]

pub compare_keys_refl : (a : PackageKey) → compare_keys a a ≡ eq
unfolding compare_keys
compare_keys_refl a = ground (arith, compare_bytes_refl a.scope, compare_bytes_refl a.name)

pub compare_keys-eq : (a b : PackageKey) → compare_keys a b ≡ eq → a ≡ b
unfolding compare_keys
compare_keys-eq a b h =
    ground (arith, compare_bytes-eq a.scope b.scope, compare_bytes-eq a.name b.name)

pub compare_keys-gt : (a b : PackageKey) → compare_keys a b ≡ gt → compare_keys b a ≡ lt
unfolding compare_keys
compare_keys-gt a b h = ground (
  arith,
  compare_bytes-gt a.scope b.scope,
  compare_bytes-gt a.name b.name,
  compare_bytes-eq a.scope b.scope,
  compare_bytes_refl b.scope,
)

pub compare_keys_trans :
    (a b c : PackageKey) → compare_keys a b ≡ lt → compare_keys b c ≡ lt → compare_keys a c ≡ lt
unfolding compare_keys
compare_keys_trans a b c h k = ground (
  arith,
  compare_bytes_trans a.scope b.scope c.scope,
  compare_bytes_trans a.name b.name c.name,
  compare_bytes-eq a.scope b.scope,
  compare_bytes-eq b.scope c.scope,
  compare_bytes_refl c.scope,
)

instance unfoldable pub key_ord : Ord PackageKey
unfolding compare_keys compare_bytes
key_ord = record {
  cmp = compare_keys;
  cmp_refl = compare_keys_refl;
  eq_of_cmp = compare_keys-eq;
  lt_of_gt = compare_keys-gt;
  lt_trans = compare_keys_trans;
}

-- LeanBunLockV1ErrorKind
pub data LockErrorKind : Type 0 where
  invalid_field limit_exceeded duplicate_package duplicate_dependency missing_package :
      LockErrorKind
  extra_package dependency_cycle graph_too_deep absolute_portable_path : LockErrorKind
  duplicate_provenance incompatible_provenance ambiguous_selection missing_decision : LockErrorKind
  duplicate_decision path_outside_generation_root non_canonical_text digest_mismatch : LockErrorKind
  -- no error of the program: a loop that the model runs on fuel has used it up
  out_of_fuel : LockErrorKind

-- RequestedPackageSourceV1
pub data RequestedSource : Type 0 where
  git : (url : Text) (requested_revision : Option Text) → RequestedSource
  path_snapshot : (portable_path_token : Text) → RequestedSource

-- ResolvedPackageSourceV1
pub data ResolvedSource : Type 0 where
  git : (url exact_revision : Text) (subdir : Option Text) → ResolvedSource
  path_snapshot : (portable_path_token : Text) → ResolvedSource

-- LockedLeanPackageV1; a dependency is the key that it wraps
pub record LockedPackage : Type 0 where
  pub key : PackageKey
  pub requested : RequestedSource
  pub resolved : ResolvedSource
  pub download_integrity : Option Sha256
  pub source_tree_sha256 : Sha256
  pub config_sha256 : Sha256
  pub manifest_sha256 : Option Sha256
  pub dependencies : List PackageKey
  pub provenance_digests : List Sha256
  pub selected_source_identity : Sha256

-- LeanBunLockV1
pub record Lock : Type 0 where
  pub lean_toolchain : Text
  pub lean_compiler_githash : Text
  pub lake_version : Text
  pub root_config_sha256 : Sha256
  pub root_declaration_sha256 : Sha256
  pub packages : List LockedPackage
  pub graph_sha256 : Sha256
