-- ===== src/Reservoir/Document/Whole.antt =====
-- The whole text of a document, and the texts that are accepted.
use leanbun.Base.{
  ℕ, ◌≤◌, Bool, true, false, List, [], ◌∷◌, length, not, ◌||◌, ltb, eqb, ok, subst, ◌>>◌, reject_if,
  ◌==◌, ==_refl, bytes_equal, ◌≡◌, refl, ap, All-imp, bytes, lines, lines_of-lines, split_on,
  ends_with, arith, le_of_ltb, display_nat,
}
use leanbun.Core.Identity.Digest.{IsDigest}
use leanbun.Core.Sha256.Bytes.{finalize_bytes}
use leanbun.Lock.Model
use leanbun.Lock.Model.{Text, Sha256}
use leanbun.Lock.Hash.{hash_bytes}
use leanbun.Lock.Text.Encode.{line, encode_count, encode_sha, identity}
use leanbun.Lock.Text.Parse.{◌⇒◌, checked, at, expect, expect_parts, read_sha}
use leanbun.Lock.Text.Reads.{
  Reads, Reads-last, Reads-expect, Reads-repeat, IsToken-of_all, parse_usize-display_nat,
  display_nat-IsToken,
}
use leanbun.Lock.Text.Records.{Reads-read_sha}
use leanbun.Lock.Text.Whole.{Finishes, Finishes-⇒}
use leanbun.Reservoir.Binding.{BindingErrorKind, Binding}
use leanbun.Reservoir.Document.{
  Document, make_document, sort_bindings, document_identity, encode_binding, document_to_text,
  noncanonical, lifted, read_binding_count, checked_document, read_binding, read_document_header,
  read_lock_identity, read_document_end, read_document, parse_document, document_from_text,
}
use leanbun.Reservoir.Document.RoundTrip.{
  Reads-lifted, Reads-read_binding, IsDocument, make_document-IsMade,
}

lock_identity-IsDigest : (lock : Model.Lock) → IsDigest (identity lock)
unfolding identity hash_bytes
lock_identity-IsDigest lock =
    let (size, small) = finalize_bytes _ in record { size = size; bytes = small }

document_identity-IsDigest :
    (named : Sha256) (bs : List Binding) → IsDigest (document_identity named bs)
unfolding document_identity
document_identity-IsDigest named bs =
    let (size, small) = finalize_bytes _ in record { size = size; bytes = small }

header_read :
    Reads read_document_header (line (bytes "leanbun-reservoir-bindings-v1") ((b'1' ∷ []) ∷ [])) tt
unfolding read_document_header bytes_equal
header_read =
    Reads-last (lifted (expect (bytes "leanbun-reservoir-bindings-v1") 1))
      (λ header. reject_if (not (at header 0 == (b'1' ∷ []))) BindingErrorKind.non_canonical_text)
      (line (bytes "leanbun-reservoir-bindings-v1") ((b'1' ∷ []) ∷ [])) ((b'1' ∷ []) ∷ []) tt
      (Reads-lifted (
        Reads-expect (bytes "leanbun-reservoir-bindings-v1") ((b'1' ∷ []) ∷ [])
          (
            IsToken-of_all (bytes "leanbun-reservoir-bindings-v1") refl,
            (IsToken-of_all (b'1' ∷ []) refl, tt),
          )
          1 refl))
      refl

same_identity :
    (d : Sha256) → (reject_if (not (d == d)) BindingErrorKind.incompatible_lock >> ok d) ≡ ok d
same_identity d = rw (==_refl d) refl

count_read :
    (n : ℕ)
    → (eqb n 0 || ltb 4096 n) ≡ false
    → n ≤ 4096
    → Reads read_binding_count (encode_count (bytes "binding-count") n) n
unfolding read_binding_count encode_count ◌⇒◌ lifted noncanonical
count_read n counted small =
    let header =
      Reads-expect (bytes "binding-count") (display_nat n ∷ [])
        (IsToken-of_all (bytes "binding-count") refl, (display_nat-IsToken n, tt)) 1 refl in
    record {
      on_lines = λ rest. rw (header.on_lines rest, parse_usize-display_nat n small, counted) refl;
      no_return = header.no_return;
    }

last_line :
    expect (bytes "end-reservoir-bindings") 0 (lines (line (bytes "end-reservoir-bindings") []))
    ≡ ok ([], [])
unfolding line expect expect_parts lines split_on bytes_equal
last_line = refl

end_of_line : ends_with (10 ∷ []) (line (bytes "end-reservoir-bindings") []) ≡ true
unfolding ends_with line
end_of_line = refl

lock_named :
    (lock : Model.Lock) (named : Sha256)
    → identity lock ≡ named
    → Reads (read_lock_identity lock) (encode_sha (bytes "lock-v1-identity") named) named
unfolding read_lock_identity
lock_named lock named e =
    subst (λ n. Reads (read_lock_identity lock) (encode_sha (bytes "lock-v1-identity") n) n) e
      (Reads-last (lifted (read_sha (bytes "lock-v1-identity")))
        (λ n. reject_if (not (n == identity lock)) BindingErrorKind.incompatible_lock >> ok n)
        (encode_sha (bytes "lock-v1-identity") (identity lock)) (identity lock) (identity lock)
        (Reads-lifted (
          Reads-read_sha (bytes "lock-v1-identity") refl (identity lock)
            (lock_identity-IsDigest lock)))
        (same_identity (identity lock)))

either_false : (p q : Bool) → (p || q) ≡ false → q ≡ false
either_false p q h = ground arith

-- the last lines, and what is done with everything that was read
finish_document :
    (lock : Model.Lock) (d : Document)
    → IsDocument lock d
    → Finishes
        (lifted (expect (bytes "end-reservoir-bindings") 0) ⇒ λ _. read_document_end ⇒ λ _.
          checked (checked_document (make_document lock d.bindings) d.identity))
        (line (bytes "end-reservoir-bindings") [])
        d
unfolding ◌⇒◌ read_document_end lifted noncanonical checked_document
finish_document lock d h =
    let last =
      Reads-expect (bytes "end-reservoir-bindings") []
        (IsToken-of_all (bytes "end-reservoir-bindings") refl, tt) 0 refl in
    record {
      on_lines = rw (last_line, h.made, ==_refl d.identity) refl;
      no_return = last.no_return;
      ends = end_of_line;
    }

read_document-Finishes :
    (lock : Model.Lock) (d : Document)
    → IsDocument lock d
    → Finishes (read_document lock) (document_to_text d) d
unfolding read_document document_to_text
read_document-Finishes lock d h =
    let made = make_document-IsMade lock d.bindings d h.made in
    let named : identity lock ≡ d.lock_v1_identity =
      ap (λ (x : Document). x.lock_v1_identity) made.is in
    let digest : IsDigest d.identity =
      subst (λ (x : Document). IsDigest x.identity) made.is
        (document_identity-IsDigest (identity lock) (sort_bindings d.bindings)) in
    let few =
      le_of_ltb 4096 (length d.bindings)
        (either_false (eqb (length d.bindings) 0) (ltb 4096 (length d.bindings)) made.counted) in
    Finishes-⇒ _ header_read (
      Finishes-⇒ _ (lock_named lock d.lock_v1_identity named) (
        Finishes-⇒ _ (count_read (length d.bindings) made.counted few) (
          Finishes-⇒ _
            (Reads-repeat read_binding encode_binding d.bindings
              (All-imp Reads-read_binding d.bindings h.bindings))
            (Finishes-⇒ _
              (Reads-lifted (Reads-read_sha (bytes "document-identity") refl d.identity digest))
              (finish_document lock d h)))))

-- The text of a document is accepted beside the lock and what is read is that document, where the lock
-- and the bindings are those that the constructor of documents makes it of, and each binding is what its
-- constructor makes of UTF-8 texts, digests of 32 bytes and a URL that the parser leaves as it is.
pub document_from_text-document_to_text :
    (lock : Model.Lock) (d : Document)
    → IsDocument lock d
    → document_from_text (document_to_text d) lock ≡ ok d
unfolding document_from_text parse_document
document_from_text-document_to_text lock d h =
    let whole = read_document-Finishes lock d h in
    rw
      (
        lines_of-lines (document_to_text d) whole.no_return,
        whole.on_lines,
        ==_refl (document_to_text d),
      )
      refl
