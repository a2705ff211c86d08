-- ===== src/Lock/Text/Canonical.antt =====
-- The whole text of a lock: LeanBunLockV1::to_canonical_text and from_canonical_text.
use leanbun.Base.{
  ℕ, ◌≤◌, Bool, true, false, List, [], ◌∷◌, length, not, ◌||◌, ok, err, subst, ◌>>=◌, ◌>>◌,
  >>=-eq-ok, reject_if, reject_if-eq-ok, ◌==◌, ==_iff, ==_refl, bytes_equal, ◌≡◌, refl, All,
  All-imp, Lacks, bytes, lines, split_on, eqb-ne, ends_with, contains, le_of_ltb,
}
use leanbun.Core.Identity.Digest.{IsDigest}
use leanbun.Core.Sha256.Bytes.{finalize_bytes}
use leanbun.Lock.Model
use leanbun.Lock.Fields.{Made}
use leanbun.Lock.Model.{Text, Sha256, LockedPackage, LockErrorKind}
use leanbun.Lock.Build.{make_lock}
use leanbun.Lock.Build.Laws.{IsSoundLock, make_lock-IsMade, make_lock-IsSoundLock}
use leanbun.Lock.Hash.{hash_graph}
use leanbun.Lock.Hex.{IsString}
use leanbun.Lock.Text.Encode.{line, encode_package, to_canonical_text}
use leanbun.Lock.Text.Parse.{
  ◌⇒◌, checked, done, at, expect, expect_parts, read_end, read_header, read_package, read_lock,
  parse_lock, from_canonical_text,
}
use leanbun.Lock.Text.Reads.{
  Reads, Reads-last, Reads-expect, Reads-repeat, Reads-read_count, IsToken-of_all,
}
use leanbun.Lock.Text.Records.{Reads-read_text, Reads-read_sha}
use leanbun.Lock.Text.Whole.{Finishes, Finishes-⇒, Yields, Yields-⇒, not-false}
use leanbun.Lock.Text.RoundTrip.{IsPackage, Reads-read_package}

-- a lock of strings and digests that its constructor makes of its own parts
pub record IsCanonical (l : Model.Lock) : Type 0 where
  pub lean_toolchain : IsString l.lean_toolchain
  pub lean_compiler_githash : IsString l.lean_compiler_githash
  pub lake_version : IsString l.lake_version
  pub root_config_sha256 : IsDigest l.root_config_sha256
  pub root_declaration_sha256 : IsDigest l.root_declaration_sha256
  pub packages : All IsPackage l.packages
  pub made :
      make_lock l.lean_toolchain l.lean_compiler_githash l.lake_version l.root_config_sha256
        l.root_declaration_sha256 l.packages
      ≡ ok l

last_line : expect (bytes "end-lock") 0 (lines (line (bytes "end-lock") [])) ≡ ok ([], [])
unfolding line expect expect_parts lines split_on bytes_equal
last_line = refl

end_of_line : ends_with (10 ∷ []) (line (bytes "end-lock") []) ≡ true
unfolding ends_with line
end_of_line = refl

Lacks-contains : (b : ℕ) (text : Text) → Lacks b text → contains b text ≡ false
Lacks-contains b [] h = refl
Lacks-contains b (c ∷ text) h = rw (eqb-ne c b h.0) (Lacks-contains b text h.1)

-- the last lines, and what is done with everything that was read
finish_lock :
    (l : Model.Lock)
    → IsCanonical l
    → Finishes
        (expect (bytes "end-lock") 0 ⇒ λ _. read_end ⇒ λ _.
          checked (
            make_lock l.lean_toolchain l.lean_compiler_githash l.lake_version l.root_config_sha256
              l.root_declaration_sha256 l.packages)
          ⇒ λ lock.
              checked (
                reject_if (not (lock.graph_sha256 == l.graph_sha256)) LockErrorKind.digest_mismatch)
              ⇒ λ _. done lock)
        (line (bytes "end-lock") [])
        l
unfolding ◌⇒◌ read_end
finish_lock l h =
    let last =
      Reads-expect (bytes "end-lock") [] (IsToken-of_all (bytes "end-lock") refl, tt) 0 refl in
    record {
      on_lines = rw (last_line, h.made, ==_refl l.graph_sha256) refl;
      no_return = last.no_return;
      ends = end_of_line;
    }

graph-IsDigest : (l : Model.Lock) → IsCanonical l → IsDigest l.graph_sha256
unfolding hash_graph
graph-IsDigest l h =
    let sound = make_lock-IsSoundLock _ _ _ _ _ _ l h.made in
    let (size, small) = finalize_bytes _ in
    rw (sound.digest) (record { size = size; bytes = small })

few_packages : (l : Model.Lock) → IsCanonical l → length l.packages ≤ 4096
few_packages l h = le_of_ltb 4096 (length l.packages) (make_lock-IsMade _ _ _ _ _ _ l h.made).few

header_read : Reads read_header (line (bytes "leanbun-lock-v1") ((b'1' ∷ []) ∷ [])) tt
unfolding read_header bytes_equal
header_read =
    Reads-last (expect (bytes "leanbun-lock-v1") 1)
      (λ header. reject_if (not (at header 0 == (b'1' ∷ []))) LockErrorKind.non_canonical_text)
      (line (bytes "leanbun-lock-v1") ((b'1' ∷ []) ∷ [])) ((b'1' ∷ []) ∷ []) tt
      (Reads-expect (bytes "leanbun-lock-v1") ((b'1' ∷ []) ∷ [])
        (IsToken-of_all (bytes "leanbun-lock-v1") refl, (IsToken-of_all (b'1' ∷ []) refl, tt)) 1
        refl)
      refl

read_lock-Finishes : (l : Model.Lock) → IsCanonical l → Finishes read_lock (to_canonical_text l) l
unfolding read_lock to_canonical_text
read_lock-Finishes l h = Finishes-⇒ _ header_read (
    Finishes-⇒ _ (Reads-read_text (bytes "lean-toolchain") refl l.lean_toolchain h.lean_toolchain) (
      Finishes-⇒ _
        (Reads-read_text (bytes "lean-compiler-githash") refl l.lean_compiler_githash
          h.lean_compiler_githash)
        (Finishes-⇒ _ (Reads-read_text (bytes "lake-version") refl l.lake_version h.lake_version) (
          Finishes-⇒ _
            (Reads-read_sha (bytes "root-config-sha256") refl l.root_config_sha256
              h.root_config_sha256)
            (Finishes-⇒ _
              (Reads-read_sha (bytes "root-declaration-sha256") refl l.root_declaration_sha256
                h.root_declaration_sha256)
              (Finishes-⇒ _
                (Reads-read_count (bytes "package-count") (length l.packages) refl
                  (few_packages l h))
                (Finishes-⇒ _
                  (Reads-repeat read_package encode_package l.packages
                    (All-imp Reads-read_package l.packages h.packages))
                  (Finishes-⇒ _
                    (Reads-read_sha (bytes "graph-sha256") refl l.graph_sha256 (graph-IsDigest l h))
                    (finish_lock l h)))))))))

-- The canonical text of a lock is accepted and what is read is that lock, where the texts of the lock
-- are UTF-8, its digests have 32 bytes, the constructors make its keys, sources, packages and the lock
-- itself of their own parts, and the URL parser leaves its URLs as they are.
pub from_canonical_text-to_canonical_text :
    (l : Model.Lock) → IsCanonical l → from_canonical_text (to_canonical_text l) ≡ ok l
unfolding from_canonical_text parse_lock
from_canonical_text-to_canonical_text l h =
    let whole = read_lock-Finishes l h in
    rw
      (
        whole.ends,
        Lacks-contains 13 (to_canonical_text l) whole.no_return,
        whole.on_lines,
        ==_refl (to_canonical_text l),
      )
      refl

value_of : (a b : Model.Lock) → ◌≡◌ {A = Made Model.Lock} (ok a) (ok b) → a ≡ b
value_of a b e = cc

-- the end of `parse_lock` returns what the constructor has made
Yields-made :
    (made : Made Model.Lock) (claimed : Sha256)
    → ((l : Model.Lock) → made ≡ ok l → IsSoundLock l)
    → Yields
        (checked made ⇒ λ lock.
          checked (reject_if (not (lock.graph_sha256 == claimed)) LockErrorKind.digest_mismatch)
          ⇒ λ _. done lock)
        IsSoundLock
unfolding ◌⇒◌
Yields-made (ok lock) claimed sound = record {
  holds = λ state rest l e. sound l (kept lock l state rest (not (lock.graph_sha256 == claimed)) e);
}
  where
    kept :
        (a b : Model.Lock) (state rest : List Text) (test : Bool)
        → ◌≡◌ {A = Made (Model.Lock × List Text)}
            ((reject_if test LockErrorKind.digest_mismatch >>= λ u. ok (u, state))
              >>= λ (_, further). ok (a, further))
            (ok (b, rest))
        → ◌≡◌ {A = Made Model.Lock} (ok a) (ok b)
    kept a b state rest true e = cc
    kept a b state rest false e = cc
Yields-made (err e) claimed sound = record { holds = λ state rest l h. absurd (failed h) }
  where
    failed :
        {x : Model.Lock × List Text} → ◌≡◌ {A = Made (Model.Lock × List Text)} (err e) (ok x) → ⊥
    failed h = cc

read_lock-Yields : Yields read_lock IsSoundLock
unfolding read_lock
read_lock-Yields = Yields-⇒ _ _ (λ _. Yields-⇒ _ _ (λ toolchain. Yields-⇒ _ _ (λ compiler.
    Yields-⇒ _ _ (λ lake. Yields-⇒ _ _ (λ config. Yields-⇒ _ _ (λ declaration.
      Yields-⇒ _ _ (λ count. Yields-⇒ _ _ (λ packages. Yields-⇒ _ _ (λ claimed. Yields-⇒ _ _ (λ _.
        Yields-⇒ _ _ (λ _.
          Yields-made _ claimed
            (make_lock-IsSoundLock toolchain compiler lake config declaration packages))))))))))))

parse_lock-IsSoundLock : (text : Text) (l : Model.Lock) → parse_lock text ≡ ok l → IsSoundLock l
unfolding parse_lock
parse_lock-IsSoundLock text l h =
    let ((lock, rest), read, same) =
      >>=-eq-ok
        (reject_if (not (ends_with (10 ∷ []) text) || contains 13 text)
            LockErrorKind.non_canonical_text
          >> read_lock (lines text))
        _ h in
    let (u, tested, taken) =
      >>=-eq-ok
        (reject_if (not (ends_with (10 ∷ []) text) || contains 13 text)
          LockErrorKind.non_canonical_text)
        (λ _. read_lock (lines text)) read in
    subst IsSoundLock (value_of lock l same) (read_lock-Yields.holds (lines text) rest lock taken)

-- A text that is accepted is the canonical text of the lock that is read, and the lock is sound: its
-- packages ascend, its dependencies are its packages, its chains are short and its digest is right.
pub from_canonical_text-eq_ok :
    (text : Text) (l : Model.Lock)
    → from_canonical_text text ≡ ok l
    → (to_canonical_text l ≡ text) × IsSoundLock l
unfolding from_canonical_text
from_canonical_text-eq_ok text l h =
    let (parsed, first, rest) = >>=-eq-ok (parse_lock text) _ h in
    let (u, tested, same) =
      >>=-eq-ok
        (reject_if (not (to_canonical_text parsed == text)) LockErrorKind.non_canonical_text)
        (λ _. ok parsed) rest in
    let is : parsed ≡ l = value_of parsed l same in
    subst (λ x. (to_canonical_text x ≡ text) × IsSoundLock x) is
      (
        (==_iff (to_canonical_text parsed) text).0 (not-false _ (reject_if-eq-ok _ _ tested)),
        parse_lock-IsSoundLock text parsed first,
      )
