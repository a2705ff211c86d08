-- ===== src/Lock/Hash.antt =====
-- The digests of rust/crates/leanbun-lock/src/lock_v1.rs.
use leanbun.Base.{List, [], ◌∷◌, ◌++◌, bytes}
use leanbun.Core.Sha256.{Hasher, new, update, finalize}
use leanbun.Core.Framing.{hash_string, hash_optional_string, hash_optional_sha}
use leanbun.Lock.Model.{Text, Sha256, PackageKey, RequestedSource, ResolvedSource, LockedPackage}

unfoldable pub hash_requested_source : RequestedSource → Hasher → Hasher
unfolding update hash_string hash_optional_string
hash_requested_source (RequestedSource.git url revision) hasher =
    hash_optional_string revision (hash_string url (update hasher (0 ∷ [])))
hash_requested_source (RequestedSource.path_snapshot token) hasher =
    hash_string token (update hasher (1 ∷ []))

unfoldable pub hash_resolved_source : ResolvedSource → Hasher → Hasher
unfolding update hash_string hash_optional_string
hash_resolved_source (ResolvedSource.git url revision subdir) hasher =
    hash_optional_string subdir (hash_string revision (hash_string url (update hasher (0 ∷ []))))
hash_resolved_source (ResolvedSource.path_snapshot token) hasher =
    hash_string token (update hasher (1 ∷ []))

unfoldable pub hash_keys : List PackageKey → Hasher → Hasher
unfolding hash_string
hash_keys [] hasher = hasher
hash_keys (k ∷ ks) hasher = hash_keys ks (hash_string k.name (hash_string k.scope hasher))

unfoldable pub hash_digests : List Sha256 → Hasher → Hasher
unfolding update
hash_digests [] hasher = hasher
hash_digests (d ∷ ds) hasher = hash_digests ds (update hasher d)

-- one round of the loop of hash_graph
unfoldable pub hash_package : LockedPackage → Hasher → Hasher
unfolding update hash_string hash_requested_source hash_resolved_source hash_optional_sha hash_keys
    hash_digests
hash_package p hasher =
    let h1 = hash_string p.key.name (hash_string p.key.scope hasher) in
    let h2 = hash_resolved_source p.resolved (hash_requested_source p.requested h1) in
    let h3 = update (hash_optional_sha p.download_integrity h2) p.source_tree_sha256 in
    let h4 = hash_optional_sha p.manifest_sha256 (update h3 p.config_sha256) in
    hash_digests p.provenance_digests
      (hash_keys p.dependencies (update h4 p.selected_source_identity))

unfoldable pub hash_packages : List LockedPackage → Hasher → Hasher
unfolding hash_package
hash_packages [] hasher = hasher
hash_packages (p ∷ ps) hasher = hash_packages ps (hash_package p hasher)

unfoldable pub hash_graph : List LockedPackage → Sha256
unfolding new update finalize hash_packages
hash_graph packages =
    finalize (hash_packages packages (update new (bytes "leanbun-package-graph-v1" ++ 0 ∷ [])))

unfoldable pub hash_bytes : Text → Text → Sha256
unfolding new update finalize
hash_bytes domain text = finalize (update (update new domain) text)
