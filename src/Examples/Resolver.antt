-- ===== src/Examples/Resolver.antt =====
-- A package that requires another one, taken through the selection.
use leanbun.Base.{
  IsName, Lacks, get_or, join_with, ◌<◌, ◌⊎◌, err, arith, All, ◌≢◌, ℕ, List, [], ◌∷◌, some, none,
  ◌≡◌, refl, inl, inr, ok, bytes, sym, ap, replicate,
}
use leanbun.Base.TreeMap.{get}
use leanbun.Lock.Model.{PackageKey, key_ord}
use leanbun.Resolver.Model.{
  ErrorKind, ResolutionError, SourceRequest, ExactSource, Requirement, Candidate, Origin, Selected,
}
use leanbun.Resolver.Fields.{validate_relative_path}
use leanbun.Resolver.Relative.{validate_relative_path-names}
use leanbun.Resolver.Selecting.{Context, Selection, Registry, select_requirement, drain}
use leanbun.Resolver.Selecting.Step.{IsKeyed, IsKeyed-cons, Grows, Meets, select_requirement-Grows}
use leanbun.Resolver.Selecting.Ending.{potential, drain_ends}
use leanbun.Resolver.Selecting.Closure.{IsSound, Grows-IsSound, drain-IsSound}

abbrev key : List ℕ → PackageKey
key name = record { scope = bytes "s"; name = name }

abbrev requires : List ℕ → Requirement
requires name = record { key = key name; source = SourceRequest.path name }

abbrev candidate : List ℕ → List Requirement → Candidate
candidate name dependencies = record {
  key = key name;
  requested = SourceRequest.path name;
  resolved = ExactSource.path name (replicate 32 1);
  dependencies = dependencies;
  toolchain_candidate = none;
  download_integrity = none;
  source_tree_sha256 = replicate 32 2;
  config_sha256 = replicate 32 3;
  manifest_sha256 = none;
  selected_source_identity = replicate 32 1;
  identity = name;
}

abbrev upper : Candidate
upper = candidate (bytes "a") (requires (bytes "b") ∷ [])

abbrev lower : Candidate
lower = candidate (bytes "b") []

abbrev registry : Registry
registry = (key (bytes "a"), upper ∷ []) ∷ (key (bytes "b"), lower ∷ []) ∷ []

abbrev ctx : Context
ctx = record {
  toolchain = record { lean_toolchain = []; compiler_githash = []; lake_version = [] };
  registry = registry;
  active = none;
  update_set = [];
}

abbrev start : Selection
start = record { selected = []; queue = []; resolution_order = []; shadows = [] }

abbrev first : Selected
first = record { candidate = upper; winner = Origin.root 0 }

abbrev second : Selected
second = record { candidate = lower; winner = Origin.from_package (key (bytes "a")) 0 }

abbrev rooted : Selection
rooted = record {
  selected = (key (bytes "a"), first) ∷ [];
  queue = key (bytes "a") ∷ [];
  resolution_order = key (bytes "a") ∷ [];
  shadows = [];
}

abbrev drained : Selection
drained = record {
  selected = (key (bytes "a"), first) ∷ (key (bytes "b"), second) ∷ [];
  queue = [];
  resolution_order = key (bytes "a") ∷ key (bytes "b") ∷ [];
  shadows = [];
}

registry-IsKeyed : IsKeyed registry
unfolding get
registry-IsKeyed =
    IsKeyed-cons (key (bytes "a")) (upper ∷ []) ((key (bytes "b"), lower ∷ []) ∷ [])
      (λ c w. elim w [ inl e ↦ sym (ap (λ (x : Candidate). x.key) e) | inr n ↦ absurd n ])
      (IsKeyed-cons (key (bytes "b")) (lower ∷ []) []
        (λ c w. elim w [ inl e ↦ sym (ap (λ (x : Candidate). x.key) e) | inr n ↦ absurd n ])
        (λ k cs h. cc))

root_selected : select_requirement ctx (requires (bytes "a")) (Origin.root 0) start ≡ ok rooted
unfolding select_requirement
root_selected = refl

queue_drained : drain 3 ctx rooted ≡ ok drained
unfolding drain
queue_drained = refl

start-IsSound : IsSound ctx registry-IsKeyed start
unfolding get
start-IsSound = record { chosen = λ k e h. cc; closed = λ k e h. cc }

select_requirement-Grows_example : Grows ctx start rooted × Meets rooted (requires (bytes "a"))
select_requirement-Grows_example =
    select_requirement-Grows ctx registry-IsKeyed (requires (bytes "a")) (Origin.root 0) start
      rooted root_selected

drain-IsSound_example :
    IsSound ctx registry-IsKeyed drained
    × (drained.queue ≡ [])
    × ((k : PackageKey) (e : Selected)
        → get k rooted.selected ≡ some e
        → get k drained.selected ≡ some e)
drain-IsSound_example = drain-IsSound ctx registry-IsKeyed 3 rooted drained queue_drained (
    Grows-IsSound ctx registry-IsKeyed start rooted select_requirement-Grows_example.0
      start-IsSound)

nested_path : validate_relative_path (bytes "a/b..c") ≡ ok tt
unfolding validate_relative_path
nested_path = refl

validate_relative_path-names_example :
    (head : List ℕ) × (rest : List (List ℕ)) × (join_with b'/' (head ∷ rest) ≡ bytes "a/b..c")
    × All (λ name. IsName name × Lacks b'/' name) (head ∷ rest)
    × Lacks b'\\' (bytes "a/b..c")
    × (get_or (bytes "a/b..c") 1 0 ≢ b':')
validate_relative_path-names_example = validate_relative_path-names (bytes "a/b..c") tt nested_path

enough_fuel : potential ctx rooted < 3
unfolding potential get key_ord
enough_fuel = omega arith

drain_ends_example :
    ((t : Selection) × (drain 3 ctx rooted ≡ ok t))
    ⊎ ((e : ResolutionError) × (drain 3 ctx rooted ≡ err e) × (e.kind ≢ ErrorKind.out_of_fuel))
drain_ends_example = drain_ends ctx registry-IsKeyed 3 rooted enough_fuel
