-- ===== src/Resolver/Identity.antt =====
-- candidate_identity, graph_identity and what they feed to the hasher, of
-- rust/crates/leanbun-resolver/src/model.rs.
use leanbun.Base.{List, [], ◌∷◌, ◌++◌, Option, none, some, length, bytes}
use leanbun.Core.Sha256.{Hasher, new, update, finalize}
use leanbun.Core.Framing.{hash_usize, hash_string, hash_optional_string, hash_optional_sha}
use leanbun.Lock.Model.{Sha256, PackageKey}
use leanbun.Resolver.Model.{
  Toolchain, SourceRequest, ExactSource, Requirement, Candidate, Origin, Shadow, ResolvedPackage,
}

unfoldable pub hash_key : PackageKey → Hasher → Hasher
unfolding hash_string
hash_key key hasher = hash_string key.name (hash_string key.scope hasher)

unfoldable pub hash_request : SourceRequest → Hasher → Hasher
unfolding update hash_string hash_optional_string
hash_request (SourceRequest.git url revision subdir) hasher =
    hash_optional_string subdir
      (hash_optional_string revision (hash_string url (update hasher (1 ∷ []))))
hash_request (SourceRequest.reservoir version) hasher =
    hash_optional_string version (update hasher (2 ∷ []))
hash_request (SourceRequest.path token) hasher = hash_string token (update hasher (3 ∷ []))

unfoldable pub hash_exact_source : ExactSource → Hasher → Hasher
unfolding update hash_string hash_optional_string
hash_exact_source (ExactSource.git url exact_revision subdir) hasher =
    hash_optional_string subdir
      (hash_string exact_revision (hash_string url (update hasher (1 ∷ []))))
hash_exact_source (ExactSource.path token source_identity) hasher =
    update (hash_string token (update hasher (2 ∷ []))) source_identity

unfoldable pub hash_toolchain : Toolchain → Hasher → Hasher
unfolding hash_string
hash_toolchain toolchain hasher =
    hash_string toolchain.lake_version
      (hash_string toolchain.compiler_githash (hash_string toolchain.lean_toolchain hasher))

unfoldable pub hash_optional_toolchain : Option Toolchain → Hasher → Hasher
unfolding update hash_toolchain
hash_optional_toolchain (some value) hasher = hash_toolchain value (update hasher (1 ∷ []))
hash_optional_toolchain none hasher = update hasher (0 ∷ [])

unfoldable pub hash_origin : Origin → Hasher → Hasher
unfolding update hash_usize hash_key
hash_origin (Origin.root declaration_index) hasher =
    hash_usize declaration_index (update hasher (1 ∷ []))
hash_origin (Origin.from_package parent declaration_index) hasher =
    hash_usize declaration_index (hash_key parent (update hasher (2 ∷ [])))

-- a `for` loop that feeds each member
unfoldable pub hash_each : {A : Type 0} → (A → Hasher → Hasher) → List A → Hasher → Hasher
hash_each feed [] hasher = hasher
hash_each feed (a ∷ rest) hasher = hash_each feed rest (feed a hasher)

unfoldable pub hash_requirement : Requirement → Hasher → Hasher
unfolding hash_key hash_request
hash_requirement dependency hasher = hash_request dependency.source (hash_key dependency.key hasher)

-- candidate_identity: the argument holds the function's arguments as fields
unfoldable pub candidate_identity : Candidate → Sha256
unfolding new update finalize hash_key hash_request hash_exact_source hash_optional_sha
    hash_optional_toolchain hash_usize hash_each hash_requirement
candidate_identity c =
    let h1 = hash_key c.key (update new (bytes "leanbun-resolution-candidate-v1" ++ 0 ∷ [])) in
    let h2 = hash_exact_source c.resolved (hash_request c.requested h1) in
    let h3 = update (hash_optional_sha c.download_integrity h2) c.source_tree_sha256 in
    let h4 = hash_optional_sha c.manifest_sha256 (update h3 c.config_sha256) in
    let h5 = hash_optional_toolchain c.toolchain_candidate (update h4 c.selected_source_identity) in
    finalize (hash_each hash_requirement c.dependencies (hash_usize (length c.dependencies) h5))

unfoldable pub hash_keys : List PackageKey → Hasher → Hasher
unfolding hash_usize hash_each hash_key
hash_keys keys hasher = hash_each hash_key keys (hash_usize (length keys) hasher)

unfoldable pub hash_resolved_package : ResolvedPackage → Hasher → Hasher
unfolding hash_key update hash_keys
hash_resolved_package p hasher =
    hash_keys p.dependencies (update (hash_key p.candidate.key hasher) p.candidate.identity)

unfoldable pub hash_shadow : Shadow → Hasher → Hasher
unfolding hash_key update hash_origin
hash_shadow shadow hasher = hash_origin shadow.shadowed (
    hash_origin shadow.winner
      (update (hash_key shadow.package_key hasher) shadow.selected_candidate))

unfoldable pub graph_identity :
    Toolchain
    → Sha256
    → List ResolvedPackage
    → List PackageKey
    → List PackageKey
    → List Shadow
    → List PackageKey
    → Sha256
unfolding new update finalize hash_toolchain hash_usize hash_each hash_resolved_package hash_keys
    hash_shadow
graph_identity toolchain root_identity packages root_packages resolution_order shadows impact =
    let h1 =
      hash_toolchain toolchain (update new (bytes "leanbun-resolution-graph-v1" ++ 0 ∷ [])) in
    let h2 = hash_usize (length packages) (update h1 root_identity) in
    let h3 = hash_each hash_resolved_package packages h2 in
    let h4 = hash_keys impact (hash_keys resolution_order (hash_keys root_packages h3)) in
    finalize (hash_each hash_shadow shadows (hash_usize (length shadows) h4))
