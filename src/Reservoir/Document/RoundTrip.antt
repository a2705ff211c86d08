-- ===== src/Reservoir/Document/RoundTrip.antt =====
-- document_to_text and document_from_text, one line after the other.
use leanbun.Base.{
  Bool, true, false, List, [], ◌∷◌, length, not, ◌||◌, ltb, eqb, all, ok, subst, ◌>>=◌, ◌>>◌,
  >>=-eq-ok, reject_if, reject_if-eq-ok, ==_refl, bytes_equal, ◌≡◌, refl, All, map, has_repeat,
  bytes, arith,
}
use leanbun.Core.Identity.Digest.{IsDigest}
use leanbun.Core.Sha256.Bytes.{finalize_bytes}
use leanbun.Lock.Model
use leanbun.Lock.Model.{Text, Sha256, key_equal}
use leanbun.Lock.Fields.{parse_url}
use leanbun.Lock.Hex.{IsString, IsToken, hex, unhex, unhex-hex, hex-IsToken}
use leanbun.Lock.Text.Encode.{line, identity}
use leanbun.Lock.Text.Parse.{Reader, at, expect}
use leanbun.Lock.Text.Reads.{Reads, Reads-⇒, Reads-last, Reads-expect, IsToken-of_all}
use leanbun.Lock.Text.Records.{
  IsKey, Reads-read_key, Reads-read_sha, Reads-read_text, Reads-line_1, revision-IsToken,
}
use leanbun.Reservoir.Binding.{
  BindingErrorKind, Binding, bind, binding_identity, validate_text, validate_commit,
}
use leanbun.Reservoir.Document.{
  Bound, Document, make_document, document_identity, encode_binding, noncanonical, lifted, read_url,
  read_plain, sort_bindings, check_bindings, locked_map, checked_binding, read_binding,
}

pub Reads-lifted :
    {A : Type 0} {read : Reader A} {text : Text} {a : A}
    → Reads read text a
    → Reads (lifted read) text a
unfolding lifted noncanonical
Reads-lifted h = record { on_lines = λ rest. rw (h.on_lines rest) refl; no_return = h.no_return }

-- a binding that the constructor makes of its own parts, with strings and digests
pub record IsBinding (b : Binding) : Type 0 where
  pub registry : IsDigest b.registry
  pub key : IsKey b.key
  pub requested_version : IsString b.requested_version
  pub metadata_sha256 : IsDigest b.metadata_sha256
  pub resolved_url : IsString b.resolved_url
  pub canonical_url : parse_url b.resolved_url ≡ ok b.resolved_url
  pub download_integrity : IsDigest b.download_integrity
  pub source_tree_sha256 : IsDigest b.source_tree_sha256
  pub selected_source_identity : IsDigest b.selected_source_identity
  pub made :
      bind b.registry b.key b.requested_version b.metadata_sha256 b.resolved_url b.exact_commit
        b.download_integrity b.source_tree_sha256 b.selected_source_identity
      ≡ ok b

binding-IsDigest : (b : Binding) → IsBinding b → IsDigest b.identity
unfolding bind binding_identity
binding-IsDigest b h =
    let (u, tested, is) =
      >>=-eq-ok (validate_text b.requested_version 4096 >> validate_commit b.exact_commit) _
        h.made in
    subst IsDigest (same _ b is)
      (let (size, small) = finalize_bytes _ in record { size = size; bytes = small })
  where
    same : (a c : Binding) → ◌≡◌ {A = Bound Binding} (ok a) (ok c) → a.identity ≡ c.identity
    same a c e = cc

second_test : (p q : Bool) → (not p || not q) ≡ false → q ≡ true
second_test p q t = ground arith

commit-IsToken : (b : Binding) → IsBinding b → IsToken b.exact_commit
unfolding bind validate_commit
commit-IsToken b h =
    let (u, tested, is) =
      >>=-eq-ok (validate_text b.requested_version 4096 >> validate_commit b.exact_commit) _
        h.made in
    let (v, first, valid) =
      >>=-eq-ok (validate_text b.requested_version 4096) (λ _. validate_commit b.exact_commit)
        tested in
    revision-IsToken b.exact_commit (second_test _ _ (reject_if-eq-ok _ _ valid))

checked_binding_same : (b : Binding) → checked_binding (ok b) b.identity ≡ ok b
unfolding checked_binding
checked_binding_same b = rw (==_refl b.identity) refl

module _ (label : Text) (literal : all (ltb 32) label ≡ true) where
  Reads-read_url :
      (url : Text)
      → IsString url
      → parse_url url ≡ ok url
      → Reads (read_url label) (line label (hex url ∷ [])) url
  unfolding read_url
  Reads-read_url url h canonical =
      Reads-line_1 label literal (λ values. unhex (at values 0) >>= parse_url) (hex url) url
        (hex-IsToken url h.bytes) (rw (unhex-hex url h) canonical)

  Reads-read_plain :
      (value : Text) → IsToken value → Reads (read_plain label) (line label (value ∷ [])) value
  unfolding read_plain
  Reads-read_plain value token =
      Reads-line_1 label literal (λ values. ok (at values 0)) value value token refl

  Reads-marker : Reads (lifted (expect label 0)) (line label []) []
  Reads-marker = Reads-lifted (Reads-expect label [] (IsToken-of_all label literal, tt) 0 refl)

pub Reads-read_binding : (b : Binding) → IsBinding b → Reads read_binding (encode_binding b) b
unfolding read_binding encode_binding
Reads-read_binding b h =
    Reads-⇒ _ (Reads-lifted (Reads-read_key (bytes "binding") refl b.key h.key)) (
      Reads-⇒ _
        (Reads-lifted (Reads-read_sha (bytes "registry-identity") refl b.registry h.registry))
        (Reads-⇒ _
          (Reads-lifted (
            Reads-read_text (bytes "requested-version") refl b.requested_version
              h.requested_version))
          (Reads-⇒ _
            (Reads-lifted
              (Reads-read_sha (bytes "metadata-sha256") refl b.metadata_sha256 h.metadata_sha256))
            (Reads-⇒ _
              (Reads-lifted (
                Reads-read_url (bytes "resolved-url") refl b.resolved_url h.resolved_url
                  h.canonical_url))
              (Reads-⇒ _
                (Reads-lifted (
                  Reads-read_plain (bytes "exact-commit") refl b.exact_commit (commit-IsToken b h)))
                (Reads-⇒ _
                  (Reads-lifted (
                    Reads-read_sha (bytes "download-integrity") refl b.download_integrity
                      h.download_integrity))
                  (Reads-⇒ _
                    (Reads-lifted (
                      Reads-read_sha (bytes "source-tree-sha256") refl b.source_tree_sha256
                        h.source_tree_sha256))
                    (Reads-⇒ _
                      (Reads-lifted (
                        Reads-read_sha (bytes "selected-source-identity") refl
                          b.selected_source_identity h.selected_source_identity))
                      (Reads-⇒ _
                        (Reads-lifted (
                          Reads-read_sha (bytes "binding-identity") refl b.identity
                            (binding-IsDigest b h)))
                        (Reads-last (lifted (expect (bytes "end-binding") 0))
                          (λ _.
                            checked_binding
                              (bind b.registry b.key b.requested_version b.metadata_sha256
                                b.resolved_url b.exact_commit b.download_integrity
                                b.source_tree_sha256 b.selected_source_identity)
                              b.identity)
                          (line (bytes "end-binding") []) [] b
                          (Reads-marker (bytes "end-binding") refl)
                          (rw h.made (checked_binding_same b))))))))))))

-- a document of such bindings that the constructor makes of its own parts
pub record IsDocument (lock : Model.Lock) (d : Document) : Type 0 where
  pub bindings : All IsBinding d.bindings
  pub made : make_document lock d.bindings ≡ ok d

-- what the constructor of a document has tested, and what it returns
pub record IsMade (lock : Model.Lock) (bindings : List Binding) (d : Document) : Type 0 where
  pub counted : (eqb (length bindings) 0 || ltb 4096 (length bindings)) ≡ false
  pub distinct : has_repeat (map (λ (b : Binding). b.key) (sort_bindings bindings)) ≡ false
  pub checked_all : check_bindings (locked_map lock.packages []) (sort_bindings bindings) ≡ ok tt
  pub is :
      record {
        lock_v1_identity = identity lock;
        bindings = sort_bindings bindings;
        identity = document_identity (identity lock) (sort_bindings bindings);
      }
      ≡ d

pub make_document-IsMade :
    (lock : Model.Lock) (bindings : List Binding) (d : Document)
    → make_document lock bindings ≡ ok d
    → IsMade lock bindings d
unfolding make_document
make_document-IsMade lock bindings d h =
    let count =
      reject_if (eqb (length bindings) 0 || ltb 4096 (length bindings))
        BindingErrorKind.limit_exceeded in
    let repeats =
      reject_if (has_repeat (map (λ (b : Binding). b.key) (sort_bindings bindings)))
        BindingErrorKind.duplicate_package in
    let content = check_bindings (locked_map lock.packages []) (sort_bindings bindings) in
    let (u3, t3, is) = >>=-eq-ok (count >> repeats >> content) _ h in
    let (u2, t2, checked_all) = >>=-eq-ok (count >> repeats) (λ _. content) t3 in
    let (u1, t1, distinct) = >>=-eq-ok count (λ _. repeats) t2 in
    record {
      counted = reject_if-eq-ok _ _ t1;
      distinct = reject_if-eq-ok _ _ distinct;
      checked_all = checked_all;
      is = cc;
    }
