-- ===== src/Reservoir/Document.antt =====
-- ReservoirBindingDocumentV1 of rust/crates/leanbun-lock/src/reservoir_binding_v1.rs: the bindings that
-- accompany a lock, and their text. That file repeats the readers and the writers of lines of lock_v1.rs,
-- with an error kind of its own: a reader of Lock.Text.Parse is here `lifted`.
pub mod RoundTrip
pub mod Whole
pub mod Laws
use leanbun.Base.{
  ℕ, ◌&&◌, ◌||◌, Bool, false, not, List, [], ◌∷◌, ◌++◌, map, Option, none, some, length, ltb, eqb,
  Result, ok, err, ◌>>=◌, ◌>>◌, reject_if, ◌==◌, bytes_equal, bytes, sort_by, has_repeat, lines_of,
}
use leanbun.Base.Ascending.{by_key}
use leanbun.Base.TreeMap.{TreeMap, get, insert}
use leanbun.Core.Sha256.{Hasher, new, update, finalize}
use leanbun.Core.Framing.{hash_usize}
use leanbun.Lock.Model
use leanbun.Lock.Model.{Text, Sha256, PackageKey, key_equal, key_ord, ResolvedSource, LockedPackage}
use leanbun.Lock.Fields.{Made, parse_url}
use leanbun.Lock.Hex.{hex, unhex}
use leanbun.Lock.Text.Encode.{
  ◌◁◌, line, encode_key, encode_sha, encode_count, encode_each, identity,
}
use leanbun.Lock.Text.Parse.{
  Reader, ReaderOf, ◌⇒◌, checked, done, at, expect, repeat, parse_usize, read_key, read_sha,
  read_text,
}
use leanbun.Reservoir.Binding.{BindingErrorKind, Binding, bind}

abbrev pub Bound : Type 0 → Type 0
Bound A = Result BindingErrorKind A

pub record Document : Type 0 where
  pub lock_v1_identity : Sha256
  pub bindings : List Binding
  pub identity : Sha256

-- `lock.packages().iter().map(|package| (package.key(), package)).collect()`
unfoldable pub locked_map :
    List LockedPackage → TreeMap PackageKey LockedPackage → TreeMap PackageKey LockedPackage
unfolding insert key_ord
locked_map [] m = m
locked_map (p ∷ ps) m = locked_map ps (insert p.key p m)

-- `value == Some(digest)`
unfoldable pub is_some_of : Option Sha256 → Sha256 → Bool
unfolding bytes_equal
is_some_of none digest = false
is_some_of (some d) digest = d == digest

-- the content facts of a binding against those of its package
unfoldable pub check_content : Binding → LockedPackage → Bound (Unit {0})
unfolding bytes_equal is_some_of
check_content b p = elim p.resolved [
  | ResolvedSource.git url revision _ ↦
      reject_if
        (not (url == b.resolved_url)
          || not (revision == b.exact_commit)
          || not (is_some_of p.download_integrity b.download_integrity)
          || not (p.source_tree_sha256 == b.source_tree_sha256)
          || not (p.selected_source_identity == b.selected_source_identity))
        BindingErrorKind.incompatible_lock
  | ResolvedSource.path_snapshot _ ↦ err BindingErrorKind.incompatible_lock
]

-- the loop over the bindings
unfoldable pub check_bindings : TreeMap PackageKey LockedPackage → List Binding → Bound (Unit {0})
unfolding get key_ord check_content
check_bindings locked [] = ok tt
check_bindings locked (b ∷ bs) =
    let rest = check_bindings locked bs in
    elim (get b.key locked) [
      | none ↦ err BindingErrorKind.missing_package
      | some p ↦ check_content b p >> rest
    ]

unfoldable pub hash_bindings : List Binding → Hasher → Hasher
unfolding update
hash_bindings [] hasher = hasher
hash_bindings (b ∷ bs) hasher = hash_bindings bs (update hasher b.identity)

unfoldable pub document_identity : Sha256 → List Binding → Sha256
unfolding new update hash_usize hash_bindings finalize
document_identity lock_identity bindings = finalize (
    hash_bindings bindings (
      hash_usize (length bindings) (
        update (update new (bytes "leanbun-reservoir-binding-document-v1" ++ 0 ∷ []))
          lock_identity)))

-- `bindings.sort_by(|left, right| left.package.cmp(&right.package))`
unfoldable pub sort_bindings : List Binding → List Binding
unfolding sort_by key_ord
sort_bindings bindings = sort_by (by_key (λ b. b.key)) bindings

-- ReservoirBindingDocumentV1::new
unfoldable pub make_document : Model.Lock → List Binding → Bound Document
unfolding sort_bindings has_repeat key_equal locked_map check_bindings identity document_identity
make_document lock bindings =
    let sorted = sort_bindings bindings in
    reject_if (eqb (length bindings) 0 || ltb 4096 (length bindings))
      BindingErrorKind.limit_exceeded
    >> reject_if (has_repeat (map (λ b. b.key) sorted)) BindingErrorKind.duplicate_package
    >> check_bindings (locked_map lock.packages []) sorted
    >> ok (record {
      lock_v1_identity = identity lock;
      bindings = sorted;
      identity = document_identity (identity lock) sorted;
    })

-- one round of the loop over the bindings
unfoldable pub encode_binding : Binding → Text
unfolding encode_key encode_sha line hex
encode_binding b =
    encode_key (bytes "binding") b.key
    ◁ encode_sha (bytes "registry-identity") b.registry
    ◁ line (bytes "requested-version") (hex b.requested_version ∷ [])
    ◁ encode_sha (bytes "metadata-sha256") b.metadata_sha256
    ◁ line (bytes "resolved-url") (hex b.resolved_url ∷ [])
    ◁ line (bytes "exact-commit") (b.exact_commit ∷ [])
    ◁ encode_sha (bytes "download-integrity") b.download_integrity
    ◁ encode_sha (bytes "source-tree-sha256") b.source_tree_sha256
    ◁ encode_sha (bytes "selected-source-identity") b.selected_source_identity
    ◁ encode_sha (bytes "binding-identity") b.identity
    ◁ line (bytes "end-binding") []

-- ReservoirBindingDocumentV1::to_canonical_text
unfoldable pub document_to_text : Document → Text
unfolding line encode_sha encode_count encode_each encode_binding
document_to_text d =
    line (bytes "leanbun-reservoir-bindings-v1") ((b'1' ∷ []) ∷ [])
    ◁ encode_sha (bytes "lock-v1-identity") d.lock_v1_identity
    ◁ encode_count (bytes "binding-count") (length d.bindings)
    ◁ encode_each encode_binding d.bindings
    ◁ encode_sha (bytes "document-identity") d.identity
    ◁ line (bytes "end-reservoir-bindings") []

-- `map_err(|error| noncanonical(error.to_string()))`
unfoldable pub noncanonical : {A : Type 0} → Made A → Bound A
noncanonical (ok a) = ok a
noncanonical (err _) = err BindingErrorKind.non_canonical_text

unfoldable pub lifted : {A : Type 0} → Reader A → ReaderOf BindingErrorKind A
unfolding noncanonical
lifted read state = noncanonical (read state)

unfoldable pub read_url : Text → Reader Text
unfolding expect unhex parse_url
read_url label = expect label 1 ⇒ λ values. checked (unhex (at values 0) >>= parse_url)

-- a field that is taken as it is
unfoldable pub read_plain : Text → Reader Text
unfolding expect
read_plain label = expect label 1 ⇒ λ values. checked (ok (at values 0))

unfoldable pub read_binding_count : ReaderOf BindingErrorKind ℕ
unfolding expect parse_usize
read_binding_count =
    lifted (expect (bytes "binding-count") 1 ⇒ λ values. checked (parse_usize (at values 0))) ⇒ λ n.
    checked (reject_if (eqb n 0 || ltb 4096 n) BindingErrorKind.limit_exceeded >> ok n)

-- `binding.identity() != expected_identity` after the constructor
unfoldable pub checked_binding : Bound Binding → Sha256 → Bound Binding
unfolding bytes_equal
checked_binding made expected =
    made >>= λ b. reject_if (not (b.identity == expected)) BindingErrorKind.digest_mismatch >> ok b

-- one round of the loop of parse_document
unfoldable pub read_binding : ReaderOf BindingErrorKind Binding
unfolding read_key read_sha read_text read_url read_plain expect bind checked_binding
read_binding = lifted (read_key (bytes "binding")) ⇒ λ key.
    lifted (read_sha (bytes "registry-identity")) ⇒ λ registry.
    lifted (read_text (bytes "requested-version")) ⇒ λ version.
    lifted (read_sha (bytes "metadata-sha256")) ⇒ λ metadata.
    lifted (read_url (bytes "resolved-url")) ⇒ λ url.
    lifted (read_plain (bytes "exact-commit")) ⇒ λ commit.
    lifted (read_sha (bytes "download-integrity")) ⇒ λ integrity.
    lifted (read_sha (bytes "source-tree-sha256")) ⇒ λ tree.
    lifted (read_sha (bytes "selected-source-identity")) ⇒ λ source.
    lifted (read_sha (bytes "binding-identity")) ⇒ λ expected.
    lifted (expect (bytes "end-binding") 0) ⇒ λ _.
    checked (
      checked_binding (bind registry key version metadata url commit integrity tree source)
        expected)

-- the schema version
unfoldable pub read_document_header : ReaderOf BindingErrorKind (Unit {0})
unfolding expect bytes_equal
read_document_header = lifted (expect (bytes "leanbun-reservoir-bindings-v1") 1) ⇒ λ header.
    checked (reject_if (not (at header 0 == (b'1' ∷ []))) BindingErrorKind.non_canonical_text)

unfoldable pub read_lock_identity : Model.Lock → ReaderOf BindingErrorKind Sha256
unfolding read_sha identity bytes_equal
read_lock_identity lock = lifted (read_sha (bytes "lock-v1-identity")) ⇒ λ named.
    checked
      (reject_if (not (named == identity lock)) BindingErrorKind.incompatible_lock >> ok named)

-- `cursor.position != cursor.lines.len()`
unfoldable pub read_document_end : ReaderOf BindingErrorKind (Unit {0})
read_document_end [] = ok (tt, [])
read_document_end (_ ∷ _) = err BindingErrorKind.non_canonical_text

unfoldable pub checked_document : Bound Document → Sha256 → Bound Document
unfolding bytes_equal
checked_document made expected =
    made >>= λ d. reject_if (not (d.identity == expected)) BindingErrorKind.digest_mismatch >> ok d

unfoldable pub read_document : Model.Lock → ReaderOf BindingErrorKind Document
unfolding read_document_header read_lock_identity read_binding_count repeat read_binding read_sha
    expect read_document_end make_document checked_document
read_document lock = read_document_header ⇒ λ _. read_lock_identity lock ⇒ λ _.
    read_binding_count ⇒ λ count. repeat count read_binding ⇒ λ bindings.
    lifted (read_sha (bytes "document-identity")) ⇒ λ expected.
    lifted (expect (bytes "end-reservoir-bindings") 0) ⇒ λ _.
    read_document_end ⇒ λ _. checked (checked_document (make_document lock bindings) expected)

unfoldable pub parse_document : Text → Model.Lock → Bound Document
unfolding read_document lines_of
parse_document text lock = read_document lock (lines_of text) >>= λ (d, _). ok d

-- ReservoirBindingDocumentV1::from_canonical_text
unfoldable pub document_from_text : Text → Model.Lock → Bound Document
unfolding parse_document document_to_text bytes_equal
document_from_text text lock = parse_document text lock >>= λ parsed.
    reject_if (not (document_to_text parsed == text)) BindingErrorKind.non_canonical_text
    >> ok parsed
