-- ===== src/Examples/Documents.antt =====
-- A document of one binding beside a lock of one package.
use leanbun.Base.{ℕ, ◌<◌, [], ◌∷◌, some, none, ◌≡◌, refl, ok, err, bytes, replicate, arith}
use leanbun.Codec.Text.{is_utf8}
use leanbun.Core.Identity.Digest.{IsDigest}
use leanbun.Lock.Model
use leanbun.Lock.Model.{Sha256, PackageKey, LockedPackage, RequestedSource, ResolvedSource}
use leanbun.Lock.Fields.{make_key, parse_url}
use leanbun.Lock.Hash.{hash_graph}
use leanbun.Lock.Hex.{IsString}
use leanbun.Lock.Text.Encode.{identity}
use leanbun.Lock.Text.Records.{IsKey}
use leanbun.Reservoir.Binding.{BindingErrorKind, Binding, bind, binding_identity}
use leanbun.Reservoir.Document.{
  Document, document_identity, make_document, document_to_text, document_from_text,
}
use leanbun.Reservoir.Document.RoundTrip.{IsBinding, IsDocument}
use leanbun.Reservoir.Document.Whole.{document_from_text-document_to_text}
use leanbun.Reservoir.Document.Laws.{
  IsSoundDocument, make_document-IsSoundDocument, document_from_text-eq_ok,
}

abbrev digest : ℕ → Sha256
digest b = replicate 32 b

abbrev key : PackageKey
key = record { scope = bytes "s"; name = bytes "n" }

abbrev locked : LockedPackage
locked = record {
  key = key;
  requested = RequestedSource.git (bytes "https://h/r") none;
  resolved = ResolvedSource.git (bytes "https://h/r") (replicate 40 b'a') none;
  download_integrity = some (digest 2);
  source_tree_sha256 = digest 3;
  config_sha256 = digest 5;
  manifest_sha256 = none;
  dependencies = [];
  provenance_digests = digest 6 ∷ [];
  selected_source_identity = digest 4;
}

abbrev lock : Model.Lock
lock = record {
  lean_toolchain = bytes "v4";
  lean_compiler_githash = replicate 40 b'c';
  lake_version = bytes "5";
  root_config_sha256 = digest 7;
  root_declaration_sha256 = digest 8;
  packages = locked ∷ [];
  graph_sha256 = hash_graph (locked ∷ []);
}

abbrev binding : ℕ → Binding
binding tree = record {
  registry = digest 1;
  key = key;
  requested_version = bytes "1.0";
  metadata_sha256 = digest 9;
  resolved_url = bytes "https://h/r";
  exact_commit = replicate 40 b'a';
  download_integrity = digest 2;
  source_tree_sha256 = digest tree;
  selected_source_identity = digest 4;
  identity =
      binding_identity (digest 1) key (bytes "1.0") (digest 9) (bytes "https://h/r")
        (replicate 40 b'a') (digest 2) (digest tree) (digest 4);
}

abbrev one_document : Document
one_document = record {
  lock_v1_identity = identity lock;
  bindings = binding 3 ∷ [];
  identity = document_identity (identity lock) (binding 3 ∷ []);
}

document_made : make_document lock (binding 3 ∷ []) ≡ ok one_document
unfolding make_document
document_made = refl

-- another source tree than the locked one
other_tree : make_document lock (binding 7 ∷ []) ≡ err BindingErrorKind.incompatible_lock
unfolding make_document
other_tree = refl

make_document-IsSoundDocument_example : IsSoundDocument lock one_document
make_document-IsSoundDocument_example =
    make_document-IsSoundDocument lock (binding 3 ∷ []) one_document document_made

digest-IsDigest : (b : ℕ) → b < 256 → IsDigest (digest b)
digest-IsDigest b h = record { size = refl; bytes = omega (arith, h) }

name_s : IsString (bytes "s")
unfolding is_utf8
name_s = record { bytes = omega arith; valid = refl }

name_n : IsString (bytes "n")
unfolding is_utf8
name_n = record { bytes = omega arith; valid = refl }

version : IsString (bytes "1.0")
unfolding is_utf8
version = record { bytes = omega arith; valid = refl }

url : IsString (bytes "https://h/r")
unfolding is_utf8
url = record { bytes = omega arith; valid = refl }

key-IsKey : IsKey key
unfolding make_key
key-IsKey = record { scope = name_s; name = name_n; made = refl }

binding-IsBinding : IsBinding (binding 3)
unfolding parse_url bind
binding-IsBinding = record {
  registry = digest-IsDigest 1 (omega arith);
  key = key-IsKey;
  requested_version = version;
  metadata_sha256 = digest-IsDigest 9 (omega arith);
  resolved_url = url;
  canonical_url = refl;
  download_integrity = digest-IsDigest 2 (omega arith);
  source_tree_sha256 = digest-IsDigest 3 (omega arith);
  selected_source_identity = digest-IsDigest 4 (omega arith);
  made = refl;
}

one_document-IsDocument : IsDocument lock one_document
one_document-IsDocument = record { bindings = (binding-IsBinding, tt); made = document_made }

document_from_text-document_to_text_example :
    document_from_text (document_to_text one_document) lock ≡ ok one_document
document_from_text-document_to_text_example =
    document_from_text-document_to_text lock one_document one_document-IsDocument

document_read : document_from_text (document_to_text one_document) lock ≡ ok one_document
document_read = document_from_text-document_to_text lock one_document one_document-IsDocument

document_from_text-eq_ok_example :
    (document_to_text one_document ≡ document_to_text one_document)
    × IsSoundDocument lock one_document
document_from_text-eq_ok_example =
    document_from_text-eq_ok (document_to_text one_document) lock one_document document_read
