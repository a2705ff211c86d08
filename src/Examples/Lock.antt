-- ===== src/Examples/Lock.antt =====
-- A lock of two packages, taken through its constructor, its text and its decisions.
use leanbun.Base.{
  take, ℕ, ◌≤◌, ◌<◌, ends_with, true, List, [], ◌∷◌, ◌≡◌, ◌≢◌, refl, inl, ok, none, bytes,
  replicate, arith, bytes_equal,
}
use leanbun.Base.Ascending.{Ascends-distinct}
use leanbun.Codec.Text.{is_utf8}
use leanbun.Core.Identity.Digest.{IsDigest}
use leanbun.Lock.Model
use leanbun.Lock.Model.{
  Text, Sha256, PackageKey, key_ord, key_equal, RequestedSource, ResolvedSource, LockedPackage,
  compare_keys,
}
use leanbun.Lock.Fields.{
  parse_url, make_key, requested_path_snapshot, resolved_path_snapshot, validate_atom,
  validate_git_revision,
}
use leanbun.Lock.Urls.{parse_url_not_idempotent}
use leanbun.Lock.Hash.{hash_graph}
use leanbun.Lock.Package.{make_package}
use leanbun.Lock.Graph.{validate_graph}
use leanbun.Lock.Graph.Chains.{Chain, single, onward, HasDistinctKeys, validate_graph-Chain}
use leanbun.Lock.Graph.Ending.{Stops, validate_graph_ends}
use leanbun.Lock.Build.{make_lock, sort_packages, check_packages}
use leanbun.Lock.Build.Laws.{IsSoundLock, make_lock-IsSoundLock}
use leanbun.Lock.Hex.{IsString, hex, unhex, unhex-hex}
use leanbun.Lock.Text.Encode.{to_canonical_text}
use leanbun.Lock.Text.Parse.{from_canonical_text}
use leanbun.Lock.Text.Records.{IsKey, IsRequested, IsResolved, IsOptionalDigest}
use leanbun.Lock.Text.RoundTrip.{IsPackage}
use leanbun.Lock.Text.Canonical.{
  IsCanonical, from_canonical_text-to_canonical_text, from_canonical_text-eq_ok,
}
use leanbun.Lock.Provenance.{
  ProvenanceSet, PathDecision, PathProvenance, matching_entries, manifest_provenance, make_decision,
  hash_decision,
}
use leanbun.Lock.Provenance.Contained.{IsBelow, make_decision-IsBelow}
use leanbun.Lock.Decisions.{DecisionSet, make_decision_set, hash_decisions}
use leanbun.Lock.Decisions.Laws.{DecidesEach, make_decision_set-DecidesEach}

abbrev digest : ℕ → Sha256
digest b = replicate 32 b

abbrev pub key : Text → PackageKey
key name = record { scope = bytes "s"; name = name }

abbrev snapshot : Text → List PackageKey → LockedPackage
snapshot name dependencies = record {
  key = key name;
  requested = RequestedSource.path_snapshot name;
  resolved = ResolvedSource.path_snapshot name;
  download_integrity = none;
  source_tree_sha256 = digest 2;
  config_sha256 = digest 3;
  manifest_sha256 = none;
  dependencies = dependencies;
  provenance_digests = digest 4 ∷ [];
  selected_source_identity = digest 1;
}

abbrev upper : LockedPackage
upper = snapshot (bytes "a") (key (bytes "b") ∷ [])

abbrev lower : LockedPackage
lower = snapshot (bytes "b") []

abbrev revision : Text
revision = replicate 40 b'c'

abbrev pub lock : Model.Lock
lock = record {
  lean_toolchain = bytes "v4";
  lean_compiler_githash = revision;
  lake_version = bytes "5";
  root_config_sha256 = digest 7;
  root_declaration_sha256 = digest 8;
  packages = upper ∷ lower ∷ [];
  graph_sha256 = hash_graph (upper ∷ lower ∷ []);
}

graph_accepted : validate_graph (upper ∷ lower ∷ []) ≡ ok tt
unfolding validate_graph
graph_accepted = refl

lock_made :
    make_lock (bytes "v4") revision (bytes "5") (digest 7) (digest 8) (lower ∷ upper ∷ []) ≡ ok lock
unfolding make_lock sort_packages check_packages validate_atom validate_git_revision
lock_made = refl

lock-IsSound : IsSoundLock lock
lock-IsSound =
    make_lock-IsSoundLock (bytes "v4") revision (bytes "5") (digest 7) (digest 8)
      (lower ∷ upper ∷ []) lock lock_made

make_lock-IsSoundLock_example : IsSoundLock lock
make_lock-IsSoundLock_example =
    make_lock-IsSoundLock (bytes "v4") revision (bytes "5") (digest 7) (digest 8)
      (lower ∷ upper ∷ []) lock lock_made

chain : Chain (upper ∷ lower ∷ []) 0 2
chain =
    onward {j = 1}
      (record {
        source = upper;
        target = lower;
        at_source = refl;
        at_target = refl;
        edge = inl refl;
      })
      (single {p = lower} refl)

distinct : HasDistinctKeys (upper ∷ lower ∷ [])
distinct i j p q =
    Ascends-distinct (λ (x : LockedPackage). x.key) (upper ∷ lower ∷ []) i j p q
      lock-IsSound.ascends

validate_graph-Chain_example : 2 ≤ 128
validate_graph-Chain_example =
    validate_graph-Chain (upper ∷ lower ∷ []) tt graph_accepted {i = 0} {n = 2} distinct chain

name_a : IsString (bytes "a")
unfolding is_utf8
name_a = record { bytes = omega arith; valid = refl }

name_b : IsString (bytes "b")
unfolding is_utf8
name_b = record { bytes = omega arith; valid = refl }

name_s : IsString (bytes "s")
unfolding is_utf8
name_s = record { bytes = omega arith; valid = refl }

revision-IsString : IsString revision
unfolding is_utf8
revision-IsString = record { bytes = omega arith; valid = refl }

version : IsString (bytes "v4")
unfolding is_utf8
version = record { bytes = omega arith; valid = refl }

lake : IsString (bytes "5")
unfolding is_utf8
lake = record { bytes = omega arith; valid = refl }

key_a : IsKey (key (bytes "a"))
unfolding make_key
key_a = record { scope = name_s; name = name_a; made = refl }

key_b : IsKey (key (bytes "b"))
unfolding make_key
key_b = record { scope = name_s; name = name_b; made = refl }

requested_a : IsRequested upper.requested
unfolding IsRequested requested_path_snapshot
requested_a = (name_a, refl)

requested_b : IsRequested lower.requested
unfolding IsRequested requested_path_snapshot
requested_b = (name_b, refl)

resolved_a : IsResolved upper.resolved
unfolding IsResolved resolved_path_snapshot
resolved_a = (name_a, refl)

resolved_b : IsResolved lower.resolved
unfolding IsResolved resolved_path_snapshot
resolved_b = (name_b, refl)

digest-IsDigest : (b : ℕ) → b < 256 → IsDigest (digest b)
digest-IsDigest b h = record { size = refl; bytes = omega (arith, h) }

upper_made : make_package upper ≡ ok upper
unfolding make_package
upper_made = refl

lower_made : make_package lower ≡ ok lower
unfolding make_package
lower_made = refl

upper-IsPackage : IsPackage upper
unfolding IsOptionalDigest
upper-IsPackage = record {
  key = key_a;
  requested = requested_a;
  resolved = resolved_a;
  download_integrity = tt;
  source_tree_sha256 = digest-IsDigest 2 (omega arith);
  config_sha256 = digest-IsDigest 3 (omega arith);
  manifest_sha256 = tt;
  selected_source_identity = digest-IsDigest 1 (omega arith);
  dependencies = (key_b, tt);
  provenance_digests = (digest-IsDigest 4 (omega arith), tt);
  few_dependencies = omega arith;
  few_digests = omega arith;
  made = upper_made;
}

lower-IsPackage : IsPackage lower
unfolding IsOptionalDigest
lower-IsPackage = record {
  key = key_b;
  requested = requested_b;
  resolved = resolved_b;
  download_integrity = tt;
  source_tree_sha256 = digest-IsDigest 2 (omega arith);
  config_sha256 = digest-IsDigest 3 (omega arith);
  manifest_sha256 = tt;
  selected_source_identity = digest-IsDigest 1 (omega arith);
  dependencies = tt;
  provenance_digests = (digest-IsDigest 4 (omega arith), tt);
  few_dependencies = omega arith;
  few_digests = omega arith;
  made = lower_made;
}

sorted_made :
    make_lock (bytes "v4") revision (bytes "5") (digest 7) (digest 8) (upper ∷ lower ∷ []) ≡ ok lock
unfolding make_lock sort_packages check_packages validate_atom validate_git_revision
sorted_made = refl

lock-IsCanonical : IsCanonical lock
lock-IsCanonical = record {
  lean_toolchain = version;
  lean_compiler_githash = revision-IsString;
  lake_version = lake;
  root_config_sha256 = digest-IsDigest 7 (omega arith);
  root_declaration_sha256 = digest-IsDigest 8 (omega arith);
  packages = (upper-IsPackage, (lower-IsPackage, tt));
  made = sorted_made;
}

lock_read : from_canonical_text (to_canonical_text lock) ≡ ok lock
lock_read = from_canonical_text-to_canonical_text lock lock-IsCanonical

from_canonical_text-to_canonical_text_example :
    from_canonical_text (to_canonical_text lock) ≡ ok lock
from_canonical_text-to_canonical_text_example =
    from_canonical_text-to_canonical_text lock lock-IsCanonical

from_canonical_text-eq_ok_example :
    (to_canonical_text lock ≡ to_canonical_text lock) × IsSoundLock lock
from_canonical_text-eq_ok_example =
    from_canonical_text-eq_ok (to_canonical_text lock) lock lock_read

validate_graph_ends_example : Stops (validate_graph (upper ∷ lower ∷ []))
validate_graph_ends_example = validate_graph_ends (upper ∷ lower ∷ [])

unhex-hex_example : unhex (hex (bytes "v4")) ≡ ok (bytes "v4")
unhex-hex_example = unhex-hex (bytes "v4") version

abbrev doubled : Text
doubled = bytes "https://h/r.git.git"

doubled_accepted : parse_url doubled ≡ ok (bytes "https://h/r.git")
unfolding parse_url
doubled_accepted = refl

still_suffixed : ends_with (bytes ".git") (bytes "https://h/r.git") ≡ true
unfolding ends_with
still_suffixed = refl

parse_url_not_idempotent_example :
    (parse_url (bytes "https://h/r.git") ≡ ok (take 11 (bytes "https://h/r.git")))
    × (take 11 (bytes "https://h/r.git") ≢ bytes "https://h/r.git")
parse_url_not_idempotent_example =
    parse_url_not_idempotent doubled (bytes "https://h/r.git") doubled_accepted still_suffixed

-- the segments are tested before the suffix is taken off
parent_segment : parse_url (bytes "https://h/a/...git") ≡ ok (bytes "https://h/a/..")
unfolding parse_url
parent_segment = refl

empty_segment : parse_url (bytes "https://h/.git") ≡ ok (bytes "https://h/")
unfolding parse_url
empty_segment = refl

abbrev provenance : ProvenanceSet
provenance = record {
  entries =
      manifest_provenance (key (bytes "a")) (digest 1)
      ∷ manifest_provenance (key (bytes "b")) (digest 1)
      ∷ [];
  digest = digest 9;
}

abbrev decision : Text → Text → PathDecision
decision name path = record {
  package_key = key name;
  provenance_set_sha256 = digest 9;
  selected_source_identity = digest 1;
  final_path = path;
  store_object_sha256 = digest 5;
  source_tree_sha256 = digest 2;
  generation = digest 6;
  decision_sha256 =
      hash_decision (key name) (digest 9) (digest 1) path (digest 5) (digest 2) (digest 6);
}

decision_made :
    make_decision
      (key (bytes "a"))
      provenance
      (digest 1)
      (bytes "/g")
      (bytes "/g/p/a")
      (digest 5)
      (digest 2)
      (digest 6)
    ≡ ok (decision (bytes "a") (bytes "/g/p/a"))
unfolding make_decision manifest_provenance
decision_made = refl

make_decision-IsBelow_example :
    ((entry : PathProvenance) × (matching_entries provenance (key (bytes "a")) (digest 1)
        ≡ entry ∷ []))
    × IsBelow (bytes "/g") (bytes "/g/p/a")
make_decision-IsBelow_example =
    make_decision-IsBelow (key (bytes "a")) provenance (digest 1) (bytes "/g") (bytes "/g/p/a")
      (digest 5) (digest 2) (digest 6) (decision (bytes "a") (bytes "/g/p/a")) decision_made

abbrev decisions : List PathDecision
decisions = decision (bytes "a") (bytes "/g/a") ∷ decision (bytes "b") (bytes "/g/b") ∷ []

abbrev pub decided : DecisionSet
decided = record { decisions = decisions; digest = hash_decisions decisions }

decisions_made :
    make_decision_set lock
      (decision (bytes "b") (bytes "/g/b") ∷ decision (bytes "a") (bytes "/g/a") ∷ [])
    ≡ ok decided
unfolding make_decision_set
decisions_made = refl

pub each_decided : DecidesEach lock.packages decided.decisions
each_decided =
    make_decision_set-DecidesEach lock
      (decision (bytes "b") (bytes "/g/b") ∷ decision (bytes "a") (bytes "/g/a") ∷ []) decided
      lock-IsSound decisions_made

make_decision_set-DecidesEach_example : DecidesEach lock.packages decided.decisions
make_decision_set-DecidesEach_example =
    make_decision_set-DecidesEach lock
      (decision (bytes "b") (bytes "/g/b") ∷ decision (bytes "a") (bytes "/g/a") ∷ []) decided
      lock-IsSound decisions_made
