-- ===== src/Lock/Provenance.antt =====
-- PackagePathProvenanceSetV1 and PackagePathDecisionV1 of rust/crates/leanbun-lock/src/lock_v1.rs.
pub mod Contained
use Prim.Native.Nat.{Ordering, compare}
use Prim.Native.Nat.Ordering.{lt, eq, gt}
use leanbun.Base.{
  ℕ, Bool, true, false, not, ◌&&◌, ◌||◌, List, [], ◌∷◌, ◌++◌, length, any, filter, ltb, eqb, ok,
  ◌>>=◌, ◌>>◌, reject_if, ◌==◌, bytes_equal, bytes, sort_by, if◌then◌else◌,
}
use leanbun.Core.Sha256.{Hasher, new, update, finalize}
use leanbun.Core.Framing.{hash_string}
use leanbun.Lock.Model.{Text, Sha256, PackageKey, key_equal, compare_keys, LockErrorKind}
use leanbun.Lock.Fields.{Made, validate_contained_absolute_path}

-- PackagePathProvenanceKindV1
pub data ProvenanceKind : Type 0 where
  manifest workspace_override runtime_override : ProvenanceKind

-- the place in the declaration: the derived order, and the tag of the digest
unfoldable pub kind_tag : ProvenanceKind → ℕ
kind_tag ProvenanceKind.manifest = 0
kind_tag ProvenanceKind.workspace_override = 1
kind_tag ProvenanceKind.runtime_override = 2

-- PackagePathProvenanceV1
pub record PathProvenance : Type 0 where
  pub package_key : PackageKey
  pub kind : ProvenanceKind
  pub source_identity : Sha256
  pub bun_generated : Bool

unfoldable pub manifest_provenance : PackageKey → Sha256 → PathProvenance
manifest_provenance package_key source_identity = record {
  package_key = package_key;
  kind = ProvenanceKind.manifest;
  source_identity = source_identity;
  bun_generated = false;
}

unfoldable pub workspace_override_provenance : PackageKey → Sha256 → PathProvenance
workspace_override_provenance package_key source_identity = record {
  package_key = package_key;
  kind = ProvenanceKind.workspace_override;
  source_identity = source_identity;
  bun_generated = false;
}

unfoldable pub bun_generated_runtime : PackageKey → Sha256 → PathProvenance
bun_generated_runtime package_key source_identity = record {
  package_key = package_key;
  kind = ProvenanceKind.runtime_override;
  source_identity = source_identity;
  bun_generated = true;
}

-- PackagePathProvenanceSetV1
pub record ProvenanceSet : Type 0 where
  pub entries : List PathProvenance
  pub digest : Sha256

-- `(&left.package, left.kind).cmp(&(&right.package, right.kind))`
unfoldable pub compare_entries : PathProvenance → PathProvenance → Ordering
unfolding compare_keys kind_tag
compare_entries a b = elim (compare_keys a.package_key b.package_key) [
  | lt ↦ lt
  | gt ↦ gt
  | eq ↦ compare (kind_tag a.kind) (kind_tag b.kind)
]

-- the loop over `windows(2)`
unfoldable pub repeats_layer : List PathProvenance → Bool
unfolding key_equal kind_tag
repeats_layer (a ∷ b ∷ rest) =
    a.package_key == b.package_key && eqb (kind_tag a.kind) (kind_tag b.kind)
    || repeats_layer (b ∷ rest)
repeats_layer _ = false

unfoldable pub is_foreign_runtime : PathProvenance → Bool
unfolding kind_tag
is_foreign_runtime entry = eqb (kind_tag entry.kind) 2 && not entry.bun_generated

unfoldable pub hash_provenance_entry : PathProvenance → Hasher → Hasher
unfolding hash_string update kind_tag
hash_provenance_entry entry hasher =
    let h1 = hash_string entry.package_key.name (hash_string entry.package_key.scope hasher) in
    let h2 = update (update h1 (kind_tag entry.kind ∷ [])) entry.source_identity in
    update h2 ((if entry.bun_generated then 1 else 0) ∷ [])

unfoldable pub hash_each_entry : List PathProvenance → Hasher → Hasher
unfolding hash_provenance_entry
hash_each_entry [] hasher = hasher
hash_each_entry (e ∷ es) hasher = hash_each_entry es (hash_provenance_entry e hasher)

unfoldable pub hash_provenance_entries : List PathProvenance → Sha256
unfolding new update finalize hash_each_entry
hash_provenance_entries entries =
    finalize
      (hash_each_entry entries (update new (bytes "leanbun-path-provenance-set-v1" ++ 0 ∷ [])))

-- PackagePathProvenanceSetV1::new
unfoldable pub make_provenance_set : List PathProvenance → Made ProvenanceSet
unfolding sort_by compare_entries repeats_layer is_foreign_runtime hash_provenance_entries
make_provenance_set entries =
    let sorted = sort_by compare_entries entries in
    reject_if (ltb 12288 (length entries)) LockErrorKind.limit_exceeded
    >> reject_if (repeats_layer sorted) LockErrorKind.duplicate_provenance
    >> reject_if (any is_foreign_runtime sorted) LockErrorKind.incompatible_provenance
    >> ok (record { entries = sorted; digest = hash_provenance_entries sorted })

-- PackagePathDecisionV1
pub record PathDecision : Type 0 where
  pub package_key : PackageKey
  pub provenance_set_sha256 : Sha256
  pub selected_source_identity : Sha256
  pub final_path : Text
  pub store_object_sha256 : Sha256
  pub source_tree_sha256 : Sha256
  pub generation : Sha256
  pub decision_sha256 : Sha256

unfoldable pub hash_decision :
    PackageKey → Sha256 → Sha256 → Text → Sha256 → Sha256 → Sha256 → Sha256
unfolding new update finalize hash_string
hash_decision package_key provenance selected path object tree generation =
    let start = update new (bytes "leanbun-path-decision-v1" ++ 0 ∷ []) in
    let keyed = hash_string package_key.name (hash_string package_key.scope start) in
    let placed = hash_string path (update (update keyed provenance) selected) in
    finalize (update (update (update placed object) tree) generation)

-- the entries that the filter keeps
unfoldable pub matching_entries : ProvenanceSet → PackageKey → Sha256 → List PathProvenance
unfolding filter key_equal bytes_equal
matching_entries provenance package_key identity =
    filter (λ entry. entry.package_key == package_key && entry.source_identity == identity)
      provenance.entries

-- PackagePathDecisionV1::new
unfoldable pub make_decision :
    PackageKey → ProvenanceSet → Sha256 → Text → Text → Sha256 → Sha256 → Sha256 → Made PathDecision
unfolding matching_entries validate_contained_absolute_path hash_decision
make_decision package_key provenance selected root path object tree generation =
    let matching = length (matching_entries provenance package_key selected) in
    reject_if (eqb matching 0) LockErrorKind.incompatible_provenance
    >> reject_if (ltb 1 matching) LockErrorKind.ambiguous_selection
    >> validate_contained_absolute_path root path
    >> ok (record {
      package_key = package_key;
      provenance_set_sha256 = provenance.digest;
      selected_source_identity = selected;
      final_path = path;
      store_object_sha256 = object;
      source_tree_sha256 = tree;
      generation = generation;
      decision_sha256 =
          hash_decision package_key provenance.digest selected path object tree generation;
    })
