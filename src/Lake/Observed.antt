-- ===== src/Lake/Observed.antt =====
-- LakeObservedPackagePathV1 and LakeWorkspacePathObservationV1 of
-- rust/crates/leanbun-lake-bridge/src/model.rs: the paths that Lake reports, against the decisions.
pub mod Laws
use leanbun.Base.{
  ℕ, Bool, false, not, ◌&&◌, ◌||◌, List, [], ◌∷◌, ◌++◌, map, eqb, all, drop, ok, ◌>>◌, reject_if,
  ◌==◌, bytes_equal, bytes, sort_by, has_repeat, starts_with, split_on, is_bad_part,
}
use leanbun.Base.Ascending.{by_key}
use leanbun.Base.Membership.{has_difference}
use leanbun.Core.Sha256.{Hasher, new, update, finalize}
use leanbun.Core.Framing.{hash_string}
use leanbun.Lock.Model.{Text, Sha256, PackageKey, key_equal, key_ord}
use leanbun.Lock.Provenance.{PathDecision}
use leanbun.Lock.Decisions.{DecisionSet}
use leanbun.Lake.Model.{LakeErrorKind}
use leanbun.Lake.Declaration.{Bridged}

pub record ObservedPath : Type 0 where
  pub key : PackageKey
  pub path : Text

unfoldable pub valid_absolute_path : Text → Bool
unfolding bytes_equal starts_with split_on is_bad_part
valid_absolute_path value =
    starts_with (b'/' ∷ []) value
    && not (value == (b'/' ∷ []))
    && all (λ part. not (is_bad_part part)) (split_on b'/' (drop 1 value))

-- LakeObservedPackagePathV1::new
unfoldable pub make_observed : PackageKey → Text → Bridged ObservedPath
unfolding valid_absolute_path
make_observed key path =
    reject_if (not (valid_absolute_path path)) LakeErrorKind.invalid_field
    >> ok (record { key = key; path = path })

pub record PathObservation : Type 0 where
  pub paths : List ObservedPath
  pub digest : Sha256

-- `paths.sort_by(|left, right| left.key.cmp(&right.key))`
unfoldable pub sort_paths : List ObservedPath → List ObservedPath
unfolding sort_by key_ord
sort_paths paths = sort_by (by_key (λ p. p.key)) paths

-- the loop over `zip`: a pair that differs
unfoldable pub has_mismatch : List PathDecision → List ObservedPath → Bool
unfolding key_equal bytes_equal
has_mismatch (d ∷ ds) (o ∷ os) =
    not (d.package_key == o.key) || not (d.final_path == o.path) || has_mismatch ds os
has_mismatch _ _ = false

unfoldable pub hash_paths : List ObservedPath → Hasher → Hasher
unfolding hash_string
hash_paths [] hasher = hasher
hash_paths (p ∷ ps) hasher =
    hash_paths ps (hash_string p.path (hash_string p.key.name (hash_string p.key.scope hasher)))

unfoldable pub paths_digest : List ObservedPath → Sha256
unfolding new update hash_paths finalize
paths_digest paths =
    finalize (hash_paths paths (update new (bytes "leanbun-lake-workspace-paths-v1" ++ 0 ∷ [])))

-- LakeWorkspacePathObservationV1::compare
unfoldable pub compare_paths : DecisionSet → List ObservedPath → Bridged PathObservation
unfolding sort_paths has_repeat key_equal has_mismatch paths_digest
compare_paths decided paths =
    let sorted = sort_paths paths in
    let observed = map (λ p. p.key) sorted in
    let expected = map (λ d. d.package_key) decided.decisions in
    reject_if (has_repeat observed) LakeErrorKind.duplicate_observed_path
    >> reject_if (has_difference expected observed) LakeErrorKind.missing_observed_path
    >> reject_if (has_difference observed expected) LakeErrorKind.extra_observed_path
    >> reject_if (has_mismatch decided.decisions sorted) LakeErrorKind.workspace_path_mismatch
    >> ok (record { paths = sorted; digest = paths_digest sorted })
