-- ===== src/Lock/Text/Encode.antt =====
-- LeanBunLockV1::to_canonical_text and its helpers. A value that the source pushes onto the output is
-- here the text that it pushes.
use leanbun.Base.{ℕ, List, [], ◌∷◌, ◌++◌, Option, none, some, length, bytes, join_with, display_nat}
use leanbun.Core.Identity.{display_sha256}
use leanbun.Lock.Model
use leanbun.Lock.Model.{Text, Sha256, PackageKey, RequestedSource, ResolvedSource, LockedPackage}
use leanbun.Lock.Hash.{hash_bytes}
use leanbun.Lock.Hex.{hex}

infixr 4 ◌◁◌
-- what is pushed first, and what is pushed after it
abbrev pub ◌◁◌ : Text → Text → Text
first ◁ further = first ++ further

-- the label, then each value after a tab, then a line feed
unfoldable pub line : Text → List Text → Text
unfolding join_with
line label values = join_with 9 (label ∷ values) ++ 10 ∷ []

unfoldable pub encode_optional_sha : Option Sha256 → Text
unfolding display_sha256
encode_optional_sha none = b'-' ∷ []
encode_optional_sha (some digest) = display_sha256 digest

unfoldable pub line_optional_sha : Text → Option Sha256 → Text
unfolding line encode_optional_sha
line_optional_sha label value = line label (encode_optional_sha value ∷ [])

unfoldable pub encode_optional_text : Option Text → Text
unfolding hex
encode_optional_text none = b'-' ∷ []
encode_optional_text (some text) = hex text

unfoldable pub encode_requested : RequestedSource → Text
unfolding line hex encode_optional_text
encode_requested (RequestedSource.git url revision) =
    line (bytes "requested") (bytes "git" ∷ hex url ∷ encode_optional_text revision ∷ [])
encode_requested (RequestedSource.path_snapshot token) =
    line (bytes "requested") (bytes "path-snapshot" ∷ hex token ∷ (b'-' ∷ []) ∷ [])

unfoldable pub encode_resolved : ResolvedSource → Text
unfolding line hex encode_optional_text
encode_resolved (ResolvedSource.git url exact_revision subdir) =
    line (bytes "resolved")
      (bytes "git" ∷ hex url ∷ exact_revision ∷ encode_optional_text subdir ∷ [])
encode_resolved (ResolvedSource.path_snapshot token) =
    line (bytes "resolved") (bytes "path-snapshot" ∷ hex token ∷ (b'-' ∷ []) ∷ (b'-' ∷ []) ∷ [])

unfoldable pub encode_key : Text → PackageKey → Text
unfolding line hex
encode_key label key = line label (hex key.scope ∷ hex key.name ∷ [])

-- the texts of the members one after the other: the source's `for` loops
unfoldable pub encode_each : {A : Type 0} → (A → Text) → List A → Text
encode_each encode [] = []
encode_each encode (a ∷ rest) = encode a ++ encode_each encode rest

unfoldable pub encode_sha : Text → Sha256 → Text
unfolding line display_sha256
encode_sha label digest = line label (display_sha256 digest ∷ [])

unfoldable pub encode_count : Text → ℕ → Text
unfolding line display_nat
encode_count label n = line label (display_nat n ∷ [])

-- one round of the loop over the packages
unfoldable pub encode_package : LockedPackage → Text
encode_package p =
    encode_key (bytes "package") p.key
    ◁ encode_requested p.requested
    ◁ encode_resolved p.resolved
    ◁ line_optional_sha (bytes "download-integrity") p.download_integrity
    ◁ encode_sha (bytes "source-tree-sha256") p.source_tree_sha256
    ◁ encode_sha (bytes "config-sha256") p.config_sha256
    ◁ line_optional_sha (bytes "manifest-sha256") p.manifest_sha256
    ◁ encode_sha (bytes "selected-source-identity") p.selected_source_identity
    ◁ encode_count (bytes "dependency-count") (length p.dependencies)
    ◁ encode_each (encode_key (bytes "dependency")) p.dependencies
    ◁ encode_count (bytes "provenance-count") (length p.provenance_digests)
    ◁ encode_each (encode_sha (bytes "provenance")) p.provenance_digests
    ◁ line (bytes "end-package") []

unfoldable pub to_canonical_text : Model.Lock → Text
to_canonical_text l =
    line (bytes "leanbun-lock-v1") ((b'1' ∷ []) ∷ [])
    ◁ line (bytes "lean-toolchain") (hex l.lean_toolchain ∷ [])
    ◁ line (bytes "lean-compiler-githash") (hex l.lean_compiler_githash ∷ [])
    ◁ line (bytes "lake-version") (hex l.lake_version ∷ [])
    ◁ encode_sha (bytes "root-config-sha256") l.root_config_sha256
    ◁ encode_sha (bytes "root-declaration-sha256") l.root_declaration_sha256
    ◁ encode_count (bytes "package-count") (length l.packages)
    ◁ encode_each encode_package l.packages
    ◁ encode_sha (bytes "graph-sha256") l.graph_sha256
    ◁ line (bytes "end-lock") []

unfoldable pub identity : Model.Lock → Sha256
unfolding hash_bytes to_canonical_text
identity l = hash_bytes (bytes "leanbun-lock-identity-v1" ++ 0 ∷ []) (to_canonical_text l)
