-- ===== src/Lock/Text/RoundTrip.antt =====
-- encode_package and read_package, and the lines that a package has.
use leanbun.Base.{◌≤◌, [], length, ok, ◌≡◌, refl, All, All-imp, bytes}
use leanbun.Core.Identity.Digest.{IsDigest}
use leanbun.Lock.Model.{LockedPackage}
use leanbun.Lock.Package.{make_package}
use leanbun.Lock.Text.Encode.{encode_package, encode_key, encode_sha, line}
use leanbun.Lock.Text.Parse.{expect, read_package, read_key, read_sha}
use leanbun.Lock.Text.Reads.{
  Reads, Reads-⇒, Reads-last, Reads-expect, Reads-repeat, Reads-read_count, IsToken-of_all,
}
use leanbun.Lock.Text.Records.{
  IsKey, IsRequested, IsResolved, IsOptionalDigest, Reads-read_key, Reads-read_sha,
  Reads-read_optional_sha, Reads-requested, Reads-resolved,
}

-- a package that the constructor leaves as it is, with strings and digests
pub record IsPackage (p : LockedPackage) : Type 0 where
  pub key : IsKey p.key
  pub requested : IsRequested p.requested
  pub resolved : IsResolved p.resolved
  pub download_integrity : IsOptionalDigest p.download_integrity
  pub source_tree_sha256 : IsDigest p.source_tree_sha256
  pub config_sha256 : IsDigest p.config_sha256
  pub manifest_sha256 : IsOptionalDigest p.manifest_sha256
  pub selected_source_identity : IsDigest p.selected_source_identity
  pub dependencies : All IsKey p.dependencies
  pub provenance_digests : All IsDigest p.provenance_digests
  pub few_dependencies : length p.dependencies ≤ 4096
  pub few_digests : length p.provenance_digests ≤ 4096
  pub made : make_package p ≡ ok p

pub Reads-read_package : (p : LockedPackage) → IsPackage p → Reads read_package (encode_package p) p
unfolding read_package encode_package
Reads-read_package p h = Reads-⇒ _ (Reads-read_key (bytes "package") refl p.key h.key) (
    Reads-⇒ _ (Reads-requested p.requested h.requested) (
      Reads-⇒ _ (Reads-resolved p.resolved h.resolved) (
        Reads-⇒ _
          (Reads-read_optional_sha (bytes "download-integrity") refl p.download_integrity
            h.download_integrity)
          (Reads-⇒ _
            (Reads-read_sha (bytes "source-tree-sha256") refl p.source_tree_sha256
              h.source_tree_sha256)
            (Reads-⇒ _ (Reads-read_sha (bytes "config-sha256") refl p.config_sha256 h.config_sha256)
              (Reads-⇒ _
                (Reads-read_optional_sha (bytes "manifest-sha256") refl p.manifest_sha256
                  h.manifest_sha256)
                (Reads-⇒ _
                  (Reads-read_sha (bytes "selected-source-identity") refl p.selected_source_identity
                    h.selected_source_identity)
                  (Reads-⇒ _
                    (Reads-read_count (bytes "dependency-count") (length p.dependencies) refl
                      h.few_dependencies)
                    (Reads-⇒ _
                      (Reads-repeat (read_key (bytes "dependency"))
                        (encode_key (bytes "dependency")) p.dependencies
                        (All-imp (λ key. Reads-read_key (bytes "dependency") refl key)
                          p.dependencies h.dependencies))
                      (Reads-⇒ _
                        (Reads-read_count (bytes "provenance-count") (length p.provenance_digests)
                          refl h.few_digests)
                        (Reads-⇒ _
                          (Reads-repeat (read_sha (bytes "provenance"))
                            (encode_sha (bytes "provenance")) p.provenance_digests
                            (All-imp (λ d. Reads-read_sha (bytes "provenance") refl d)
                              p.provenance_digests h.provenance_digests))
                          (Reads-last (expect (bytes "end-package") 0) (λ _. make_package p)
                            (line (bytes "end-package") []) [] p
                            (Reads-expect (bytes "end-package") []
                              (IsToken-of_all (bytes "end-package") refl, tt) 0 refl)
                            h.made))))))))))))
