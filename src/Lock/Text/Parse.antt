-- ===== src/Lock/Text/Parse.antt =====
-- parse_lock and LeanBunLockV1::from_canonical_text. A reader takes the lines that are left.
use leanbun.Base.{
  ℕ, zero, suc, ◌+◌, ◌^◌, not, ◌&&◌, ◌||◌, List, [], ◌∷◌, Option, none, some, length, all, get_or,
  ltb, eqb, if◌then◌else◌, Result, ok, err, ◌>>=◌, ◌>>◌, reject_if, ◌==◌, bytes_equal, bytes,
  ends_with, contains, split_on, lines, value_from, is_digit, has_leading_zero,
}
use leanbun.Core.Identity.{parse_sha256}
use leanbun.Lock.Model
use leanbun.Lock.Model.{
  Text, Sha256, PackageKey, RequestedSource, ResolvedSource, LockedPackage, LockErrorKind,
}
use leanbun.Lock.Fields.{
  Made, make_key, parse_url, requested_git, requested_path_snapshot, resolved_git,
  resolved_path_snapshot,
}
use leanbun.Lock.Package.{make_package}
use leanbun.Lock.Build.{make_lock}
use leanbun.Lock.Hex.{unhex}
use leanbun.Lock.Text.Encode.{to_canonical_text}

-- what a reader returns is a value and the lines that are left, or an error
abbrev pub ReaderOf : Type 0 → Type 0 → Type 0
ReaderOf E A = List Text → Result E (A × List Text)

abbrev pub Reader : Type 0 → Type 0
Reader A = ReaderOf LockErrorKind A

infixl 5 ◌⇒◌
unfoldable pub ◌⇒◌ : {E A B : Type 0} → ReaderOf E A → (A → ReaderOf E B) → ReaderOf E B
(read ⇒ next) state = read state >>= λ (a, rest). next a rest

-- `?` on a value that reads nothing
abbrev pub checked : {E A : Type 0} → Result E A → ReaderOf E A
checked made state = made >>= λ a. ok (a, state)

abbrev pub done : {E A : Type 0} → A → ReaderOf E A
done a state = ok (a, state)

-- `parts.len() != fields + 1 || parts[0] != label`, then `parts[1..]`
unfoldable pub expect_parts : Text → ℕ → List Text → Made (List Text)
unfolding bytes_equal
expect_parts label fields [] = err LockErrorKind.non_canonical_text
expect_parts label fields (first ∷ values) =
    reject_if (not (eqb (length (first ∷ values)) (fields + 1)) || not (first == label))
      LockErrorKind.non_canonical_text
    >> ok values

-- Lines::expect
unfoldable pub expect : Text → ℕ → Reader (List Text)
unfolding expect_parts split_on
expect label fields [] = err LockErrorKind.non_canonical_text
expect label fields (line ∷ rest) =
    expect_parts label fields (split_on 9 line) >>= λ values. ok (values, rest)

-- `values[i]` of a line that `expect` has counted
abbrev pub at : List Text → ℕ → Text
at values i = get_or values i []

unfoldable pub parse_usize : Text → Made ℕ
unfolding has_leading_zero value_from
parse_usize value =
    reject_if (eqb (length value) 0 || has_leading_zero value || not (all is_digit value))
      LockErrorKind.non_canonical_text
    >> reject_if (not (ltb (value_from 0 value) (2 ^ 64))) LockErrorKind.limit_exceeded
    >> ok (value_from 0 value)

-- `map_err` of the digest's parser
unfoldable pub parse_sha : Text → Made Sha256
unfolding parse_sha256
parse_sha value = elim (parse_sha256 value) [
  | ok digest ↦ ok digest
  | err _ ↦ err LockErrorKind.non_canonical_text
]

unfoldable pub parse_optional_sha : Text → Made (Option Sha256)
unfolding bytes_equal parse_sha
parse_optional_sha value =
    if value == (b'-' ∷ []) then ok none else (parse_sha value >>= λ digest. ok (some digest))

unfoldable pub parse_optional_text : Text → Made (Option Text)
unfolding bytes_equal unhex
parse_optional_text value =
    if value == (b'-' ∷ []) then ok none else (unhex value >>= λ text. ok (some text))

unfoldable pub parse_requested : List Text → Made RequestedSource
unfolding bytes_equal unhex parse_url parse_optional_text requested_git requested_path_snapshot
parse_requested values =
    if at values 0 == bytes "git"
    then (unhex (at values 1) >>= λ text. parse_url text >>= λ url.
        parse_optional_text (at values 2) >>= λ revision. requested_git url revision)
    else if at values 0 == bytes "path-snapshot" && at values 2 == (b'-' ∷ [])
    then (unhex (at values 1) >>= requested_path_snapshot)
    else err LockErrorKind.non_canonical_text

unfoldable pub parse_resolved : List Text → Made ResolvedSource
unfolding bytes_equal unhex parse_url parse_optional_text resolved_git resolved_path_snapshot
parse_resolved values =
    if at values 0 == bytes "git"
    then (unhex (at values 1) >>= λ text. parse_url text >>= λ url.
        parse_optional_text (at values 3) >>= λ subdir. resolved_git url (at values 2) subdir)
    else if at values 0 == bytes "path-snapshot"
        && at values 2 == (b'-' ∷ [])
        && at values 3 == (b'-' ∷ [])
    then (unhex (at values 1) >>= resolved_path_snapshot)
    else err LockErrorKind.non_canonical_text

-- `for _ in 0..count`
unfoldable pub repeat : {E A : Type 0} → ℕ → ReaderOf E A → ReaderOf E (List A)
repeat zero read = done []
repeat (suc n) read = read ⇒ λ a. repeat n read ⇒ λ rest. done (a ∷ rest)

unfoldable pub read_key : Text → Reader PackageKey
unfolding expect unhex make_key
read_key label = expect label 2 ⇒ λ values. checked (unhex (at values 0)) ⇒ λ scope.
    checked (unhex (at values 1)) ⇒ λ name. checked (make_key scope name)

unfoldable pub read_sha : Text → Reader Sha256
unfolding expect parse_sha
read_sha label = expect label 1 ⇒ λ values. checked (parse_sha (at values 0))

unfoldable pub read_optional_sha : Text → Reader (Option Sha256)
unfolding expect parse_optional_sha
read_optional_sha label = expect label 1 ⇒ λ values. checked (parse_optional_sha (at values 0))

unfoldable pub read_text : Text → Reader Text
unfolding expect unhex
read_text label = expect label 1 ⇒ λ values. checked (unhex (at values 0))

-- a count, which is at most 4096
unfoldable pub read_count : Text → Reader ℕ
unfolding expect parse_usize
read_count label = expect label 1 ⇒ λ values. checked (parse_usize (at values 0)) ⇒ λ n.
    checked (reject_if (ltb 4096 n) LockErrorKind.limit_exceeded) ⇒ λ _. done n

unfoldable pub read_requested : Reader RequestedSource
unfolding expect parse_requested
read_requested = expect (bytes "requested") 3 ⇒ λ values. checked (parse_requested values)

unfoldable pub read_resolved : Reader ResolvedSource
unfolding expect parse_resolved
read_resolved = expect (bytes "resolved") 4 ⇒ λ values. checked (parse_resolved values)

-- one round of the loop over the packages
unfoldable pub read_package : Reader LockedPackage
read_package = read_key (bytes "package") ⇒ λ key. read_requested ⇒ λ requested.
    read_resolved ⇒ λ resolved. read_optional_sha (bytes "download-integrity") ⇒ λ integrity.
    read_sha (bytes "source-tree-sha256") ⇒ λ tree. read_sha (bytes "config-sha256") ⇒ λ config.
    read_optional_sha (bytes "manifest-sha256") ⇒ λ manifest.
    read_sha (bytes "selected-source-identity") ⇒ λ selected.
    read_count (bytes "dependency-count") ⇒ λ dep_count.
    repeat dep_count (read_key (bytes "dependency")) ⇒ λ dependencies.
    read_count (bytes "provenance-count") ⇒ λ provenance_count.
    repeat provenance_count (read_sha (bytes "provenance")) ⇒ λ provenance.
    expect (bytes "end-package") 0 ⇒ λ _. checked (
      make_package (record {
        key = key;
        requested = requested;
        resolved = resolved;
        download_integrity = integrity;
        source_tree_sha256 = tree;
        config_sha256 = config;
        manifest_sha256 = manifest;
        dependencies = dependencies;
        provenance_digests = provenance;
        selected_source_identity = selected;
      }))

-- `lines.lines.next().is_some()`
unfoldable pub read_end : Reader (Unit {0})
read_end [] = ok (tt, [])
read_end (_ ∷ _) = err LockErrorKind.non_canonical_text

-- the schema version
unfoldable pub read_header : Reader (Unit {0})
read_header = expect (bytes "leanbun-lock-v1") 1 ⇒ λ header.
    checked (reject_if (not (at header 0 == (b'1' ∷ []))) LockErrorKind.non_canonical_text)

unfoldable pub read_lock : Reader Model.Lock
read_lock = read_header ⇒ λ _. read_text (bytes "lean-toolchain") ⇒ λ toolchain.
    read_text (bytes "lean-compiler-githash") ⇒ λ compiler.
    read_text (bytes "lake-version") ⇒ λ lake.
    read_sha (bytes "root-config-sha256") ⇒ λ root_config.
    read_sha (bytes "root-declaration-sha256") ⇒ λ root_declaration.
    read_count (bytes "package-count") ⇒ λ count. repeat count read_package ⇒ λ packages.
    read_sha (bytes "graph-sha256") ⇒ λ claimed_graph. expect (bytes "end-lock") 0 ⇒ λ _.
    read_end ⇒ λ _.
    checked (make_lock toolchain compiler lake root_config root_declaration packages) ⇒ λ lock.
    checked (reject_if (not (lock.graph_sha256 == claimed_graph)) LockErrorKind.digest_mismatch)
    ⇒ λ _. done lock

unfoldable pub parse_lock : Text → Made Model.Lock
unfolding ends_with lines read_lock
parse_lock text =
    reject_if (not (ends_with (10 ∷ []) text) || contains 13 text) LockErrorKind.non_canonical_text
    >> read_lock (lines text)
    >>= λ (lock, _). ok lock

-- LeanBunLockV1::from_canonical_text
unfoldable pub from_canonical_text : Text → Made Model.Lock
unfolding parse_lock to_canonical_text bytes_equal
from_canonical_text text = parse_lock text >>= λ parsed.
    reject_if (not (to_canonical_text parsed == text)) LockErrorKind.non_canonical_text >> ok parsed
