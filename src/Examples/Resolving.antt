-- ===== src/Examples/Resolving.antt =====
-- A frozen and a first resolution of two packages, and the tests of the graph's depth.
use leanbun.Base.{
  ℕ, zero, suc, ◌+◌, ◌-◌, List, [], ◌∷◌, ◌≡◌, refl, inl, inr, ok, err, some, none, bytes, replicate,
  true, Within, ◌⊎◌, ◌↔◌,
}
use leanbun.Lock.Model
use leanbun.Lock.Model.{
  PackageKey, LockedPackage, RequestedSource, ResolvedSource, compare_keys, key_ord,
}
use leanbun.Lock.Build.{make_lock, sort_packages, check_packages}
use leanbun.Lock.Build.Laws.{IsSoundLock, make_lock-IsSoundLock}
use leanbun.Lock.Hash.{hash_graph}
use leanbun.Resolver.Model.{
  ErrorKind, error, SourceRequest, ExactSource, Requirement, Candidate, Mode, ResolvedPackage,
}
use leanbun.Resolver.Selecting.{candidate_matches_lock}
use leanbun.Resolver.Identity.{graph_identity}
use leanbun.Resolver.Cycles.{validate_cycles_and_depth}
use leanbun.Resolver.Resolve.{LakeSource, Request, ResolutionGraph, resolve}
use leanbun.Resolver.Resolve.Kept.{resolve-keeps_lock, resolve_frozen}
use leanbun.Resolver.Resolve.Complete.{IsComplete, resolve-IsComplete}
use leanbun.Resolver.Resolve.Acyclic.{Leads, resolve-IsAcyclic}
use leanbun.Resolver.Resolve.Ending.{resolve_ends}
use leanbun.Resolver.Stops.{Stops}
use leanbun.Resolver.Impact.{KeySet, impact_closure, lock_map}
use leanbun.Resolver.Impact.Reaches.{Reaches, impact_closure-Reaches}
use leanbun.Base.TreeMap.{contains_key}

abbrev key : List ℕ → PackageKey
key name = record { scope = bytes "s"; name = name }

abbrev candidate : List ℕ → List Requirement → Candidate
candidate name dependencies = record {
  key = key name;
  requested = SourceRequest.path name;
  resolved = ExactSource.path name (replicate 32 1);
  dependencies = dependencies;
  toolchain_candidate = none;
  download_integrity = none;
  source_tree_sha256 = replicate 32 2;
  config_sha256 = replicate 32 3;
  manifest_sha256 = none;
  selected_source_identity = replicate 32 1;
  identity = name;
}

abbrev upper : Candidate
upper =
    candidate (bytes "a")
      (record { key = key (bytes "b"); source = SourceRequest.path (bytes "b") } ∷ [])

abbrev lower : Candidate
lower = candidate (bytes "b") []

abbrev locked : List ℕ → List PackageKey → LockedPackage
locked name dependencies = record {
  key = key name;
  requested = RequestedSource.path_snapshot name;
  resolved = ResolvedSource.path_snapshot name;
  download_integrity = none;
  source_tree_sha256 = replicate 32 2;
  config_sha256 = replicate 32 3;
  manifest_sha256 = none;
  dependencies = dependencies;
  provenance_digests = replicate 32 4 ∷ [];
  selected_source_identity = replicate 32 1;
}

abbrev locked_packages : List LockedPackage
locked_packages = locked (bytes "a") (key (bytes "b") ∷ []) ∷ locked (bytes "b") [] ∷ []

abbrev revision : List ℕ
revision = replicate 40 b'c'

abbrev lock : Model.Lock
lock = record {
  lean_toolchain = bytes "v4";
  lean_compiler_githash = revision;
  lake_version = bytes "5";
  root_config_sha256 = replicate 32 7;
  root_declaration_sha256 = replicate 32 8;
  packages = locked_packages;
  graph_sha256 = hash_graph locked_packages;
}

lock_made :
    make_lock (bytes "v4") revision (bytes "5") (replicate 32 7) (replicate 32 8) locked_packages
    ≡ ok lock
unfolding make_lock sort_packages check_packages
lock_made = refl

lock-IsSound : IsSoundLock lock
lock-IsSound =
    make_lock-IsSoundLock (bytes "v4") revision (bytes "5") (replicate 32 7) (replicate 32 8)
      locked_packages lock lock_made

abbrev request : Request
request = record {
  root = record {
    root_name = bytes "r";
    config_file = bytes "lakefile.toml";
    dependencies =
        record { key = key (bytes "a"); version = none; source = LakeSource.path (bytes "a") } ∷ [];
    identity = replicate 32 8;
  };
  active_lock = some lock;
  mode = Mode.frozen;
  toolchain = record {
    lean_toolchain = bytes "v4";
    compiler_githash = revision;
    lake_version = bytes "5";
  };
}

abbrev resolved : List ResolvedPackage
resolved =
    record { candidate = upper; dependencies = key (bytes "b") ∷ [] }
    ∷ record { candidate = lower; dependencies = [] }
    ∷ []

abbrev order : List PackageKey
order = key (bytes "a") ∷ key (bytes "b") ∷ []

abbrev graph : ResolutionGraph
graph = record {
  toolchain = request.toolchain;
  root_declaration_identity = replicate 32 8;
  packages = resolved;
  root_packages = key (bytes "a") ∷ [];
  resolution_order = order;
  shadows = [];
  impact_closure = [];
  identity =
      graph_identity request.toolchain (replicate 32 8) resolved (key (bytes "a") ∷ []) order [] [];
}

resolution : resolve request (lower ∷ upper ∷ []) ≡ ok graph
unfolding resolve
resolution = refl

resolve-IsComplete_example : IsComplete request (lower ∷ upper ∷ []) graph
resolve-IsComplete_example = resolve-IsComplete request (lower ∷ upper ∷ []) graph resolution

resolve-keeps_lock_example :
    ((q : ResolvedPackage) × Within q graph.packages
      × (candidate_matches_lock q.candidate (locked (bytes "b") []) ≡ true))
    ⊎ Within (key (bytes "b")) graph.impact_closure
resolve-keeps_lock_example =
    resolve-keeps_lock request (lower ∷ upper ∷ []) graph lock lock-IsSound refl resolution
      (locked (bytes "b") []) (inr (inl refl))

resolve_frozen_example :
    (q : ResolvedPackage) × Within q graph.packages
    × (candidate_matches_lock q.candidate (locked (bytes "b") []) ≡ true)
resolve_frozen_example =
    resolve_frozen request (lower ∷ upper ∷ []) graph lock lock-IsSound refl resolution refl
      (locked (bytes "b") []) (inr (inl refl))

resolve_ends_example : Stops (resolve request (lower ∷ upper ∷ []))
resolve_ends_example = resolve_ends request (lower ∷ upper ∷ [])

impact_closure-Reaches_example :
    (result : KeySet) × (impact_closure
        (λ p. p.dependencies)
        (lock_map locked_packages [])
        (key (bytes "a") ∷ [])
      ≡ some result)
    × ((k : PackageKey)
        → (contains_key k result ≡ true)
          ↔ Reaches (λ p. p.dependencies) (lock_map locked_packages []) (key (bytes "a") ∷ []) k)
impact_closure-Reaches_example =
    impact_closure-Reaches (λ p. p.dependencies) (lock_map locked_packages [])
      (key (bytes "a") ∷ [])

-- packages whose names are single bytes, each with the one before it as its dependency
abbrev rising : ℕ → ℕ → List ResolvedPackage
rising zero name = []
rising (suc n) name =
    record { candidate = candidate (name ∷ []) []; dependencies = key ((name - 1) ∷ []) ∷ [] }
    ∷ rising n (name + 1)

-- and each with the one after it
abbrev falling : ℕ → ℕ → List ResolvedPackage
falling zero name = record { candidate = candidate (name ∷ []) []; dependencies = [] } ∷ []
falling (suc n) name =
    record { candidate = candidate (name ∷ []) []; dependencies = key ((name + 1) ∷ []) ∷ [] }
    ∷ falling n (name + 1)

-- a chain of 131 packages is accepted when the keys ascend from the last of its packages
long_chain_accepted :
    validate_cycles_and_depth
      (record { candidate = candidate (1 ∷ []) []; dependencies = [] } ∷ rising 130 2)
    ≡ ok tt
unfolding validate_cycles_and_depth
long_chain_accepted = refl

-- and refused when they ascend from the first
long_chain_refused :
    validate_cycles_and_depth (falling 130 1) ≡ err (error ErrorKind.graph_too_deep)
unfolding validate_cycles_and_depth
long_chain_refused = refl

resolve-IsAcyclic_example : ¬ Leads graph.packages (key (bytes "a")) (key (bytes "a"))
resolve-IsAcyclic_example =
    resolve-IsAcyclic request (lower ∷ upper ∷ []) graph resolution (key (bytes "a"))

-- the upper package depends on the lower one
Leads-on : Leads graph.packages (key (bytes "a")) (key (bytes "b"))
Leads-on = Leads.direct (record {
  member = record { candidate = upper; dependencies = key (bytes "b") ∷ [] };
  inside = inl refl;
  keyed = refl;
  depends = inl refl;
})
