-- ===== src/Reservoir/Binding.antt =====
-- ReservoirBindingV1 of rust/crates/leanbun-lock/src/reservoir_binding_v1.rs: what the registry said
-- of a package at a version, and the digest that identifies it.
use leanbun.Base.{
  ℕ, not, ◌||◌, ◌&&◌, [], ◌∷◌, ◌++◌, length, all, ltb, leb, eqb, Result, ok, ◌>>◌, reject_if, bytes,
  has_control,
}
use leanbun.Core.Sha256.{new, update, finalize}
use leanbun.Core.Framing.{hash_string}
use leanbun.Lock.Model.{Text, Sha256, PackageKey}

pub data BindingErrorKind : Type 0 where
  invalid_field : BindingErrorKind
  limit_exceeded : BindingErrorKind
  duplicate_package : BindingErrorKind
  missing_package : BindingErrorKind
  incompatible_lock : BindingErrorKind
  non_canonical_text : BindingErrorKind
  digest_mismatch : BindingErrorKind

pub record Binding : Type 0 where
  pub registry : Sha256
  pub key : PackageKey
  pub requested_version : Text
  pub metadata_sha256 : Sha256
  pub resolved_url : Text
  pub exact_commit : Text
  pub download_integrity : Sha256
  pub source_tree_sha256 : Sha256
  pub selected_source_identity : Sha256
  pub identity : Sha256

unfoldable pub validate_text : Text → ℕ → Result BindingErrorKind (Unit {0})
unfolding has_control
validate_text value maximum =
    reject_if (eqb (length value) 0 || ltb maximum (length value) || has_control value)
      BindingErrorKind.invalid_field

unfoldable pub validate_commit : Text → Result BindingErrorKind (Unit {0})
validate_commit value =
    reject_if
      (not (eqb (length value) 40)
        || not (all (λ b. leb b'0' b && leb b b'9' || leb b'a' b && leb b b'f') value))
      BindingErrorKind.invalid_field

abbrev pub binding_domain : Text
binding_domain = bytes "leanbun-reservoir-binding-v1" ++ 0 ∷ []

unfoldable pub binding_identity :
    Sha256 → PackageKey → Text → Sha256 → Text → Text → Sha256 → Sha256 → Sha256 → Sha256
unfolding new update finalize hash_string
binding_identity registry key version metadata url commit integrity tree source =
    let h1 = update (update new binding_domain) registry in
    let h2 = hash_string version (hash_string key.name (hash_string key.scope h1)) in
    let h3 = hash_string commit (hash_string url (update h2 metadata)) in
    finalize (update (update (update h3 integrity) tree) source)

-- ReservoirBindingV1::new
unfoldable pub bind :
    Sha256
    → PackageKey
    → Text
    → Sha256
    → Text
    → Text
    → Sha256
    → Sha256
    → Sha256
    → Result BindingErrorKind Binding
unfolding validate_text validate_commit binding_identity
bind registry key version metadata url commit integrity tree source =
    validate_text version 4096
    >> validate_commit commit
    >> ok (record {
      registry = registry;
      key = key;
      requested_version = version;
      metadata_sha256 = metadata;
      resolved_url = url;
      exact_commit = commit;
      download_integrity = integrity;
      source_tree_sha256 = tree;
      selected_source_identity = source;
      identity = binding_identity registry key version metadata url commit integrity tree source;
    })
