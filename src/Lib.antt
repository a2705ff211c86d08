-- ===== src/Lib.antt =====
-- LeanBun (rust/crates) resolves the dependencies of Lean projects, locks them and shares builds of
-- them. This library models the parts that decide, as functions, and proves what they promise.
--
-- Core: rust/crates/leanbun-core. Core.Sha256 is sha256.rs (Hasher::new, update, finalize,
--   compress), Core.Identity is identity.rs (Sha256::parse and Display, ExecutionId::parse,
--   BuildTarget::parse), Core.Framing how the crates feed texts and numbers to the hasher. Every other part hashes by the first and prints digests by the second.
-- Codec: rust/crates/leanbun-codec/src/lib.rs, the strict JSON parser. Codec.Parser has a definition
--   per method of Parser; Codec.Json has the values and errors, Codec.Text the bytes and UTF-8.
-- Lock: rust/crates/leanbun-lock/src/lock_v1.rs. Lock.Model has the data, Lock.Fields the validating
--   constructors and CanonicalSourceUrlV1::parse, Lock.Package LockedLeanPackageV1::new, Lock.Graph
--   validate_graph and visit_graph, Lock.Hash the digests, Lock.Build LeanBunLockV1::new, Lock.Hex and
--   Lock.Text the text codec (to_canonical_text, parse_lock, from_canonical_text), Lock.Provenance
--   PackagePathProvenanceSetV1 and PackagePathDecisionV1, Lock.Decisions PackagePathDecisionSetV1.
-- Reservoir: the binding of a registry's answer (rust/crates/leanbun-lock/src/reservoir_binding_v1.rs),
--   in Reservoir.Binding, the document of bindings that accompanies a lock and its text codec, in
--   Reservoir.Document (make_document is ReservoirBindingDocumentV1::new, document_to_text and
--   document_from_text are to_canonical_text and from_canonical_text), and the policy that compares bindings (rust/crates/leanbun-resolver/src/reservoir_policy_v1.rs).
-- Resolver: rust/crates/leanbun-resolver/src/model.rs. Resolver.Model has the data and the matching,
--   Resolver.Fields the validating constructors, Resolver.Selecting select_requirement and the loop
--   over the queue (expand is the loop's body, drain the loop), Resolver.Impact the impact closures and
--   validate_mode_result, Resolver.Cycles validate_cycles_and_depth, Resolver.Identity the identities,
--   and Resolver.Resolve resolve_lean_dependencies_v1, which composes these (resolve). It reads the lock
--   of Lock.Model and the root declaration of Lake.Model.
-- Lake: rust/crates/leanbun-lake-bridge/src/model.rs. Lake.Declaration has its
--   constructors and its identity, Lake.Probe parse_root_declaration_probe_v1, which reads it from JSON
--   that Codec.Parser parses, Lake.Projection the manifest and the runtime projection of a lock
--   (LakeManifestProjectionV1, LakeRuntimePackagesProjectionV1), and Lake.Observed the paths that Lake
--   reports (LakeWorkspacePathObservationV1::compare).
-- State: rust/crates/leanbun-state/src/lib.rs, the decisions on a build's lock, with the key of
--   rust/crates/leanbun-evidence/src/build_lock.rs. State.Exclusion carries decisions out in turn.
-- Base: numbers, lists, results with a bind, equality, orders, sorting, ordered maps.
-- Examples: tests and concrete uses of the theorems.
--
-- A string is its list of bytes, in valid_build_target its list of Unicode scalars. A word is a
-- natural number with its wrap-around written out. BTreeMap is an ascending association list. Error
-- messages are left out: an error is its kind. A loop that is not structural is on fuel. The JSON parser
-- takes the length of what it reads and the nesting limit, the hasher the length of its input. The
-- resolver's queue loop takes the length of the queue, the number of registry keys for which nothing
-- is selected, and one more; an impact closure the number of targets and of edges, and one more, since
-- an edge is followed once. visit_graph takes the number of packages and one more, since a package is
-- entered once; the resolver's visit takes 129, since it refuses a depth above 128. An out_of_fuel
-- among the errors is the model's own.
--
-- Not modelled: file systems, processes and platform services; the printing of messages; generations,
-- the registry of managed packages, the package store, plans and package sources, whose code is for the
-- greater part work on files.
pub mod Base
pub mod Codec
pub mod Core
pub mod Examples
pub mod Lake
pub mod Lock
pub mod Reservoir
pub mod Resolver
pub mod State
