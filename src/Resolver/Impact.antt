-- ===== src/Resolver/Impact.antt =====
-- active_impact_closure, selected_impact_closure and validate_mode_result of
-- rust/crates/leanbun-resolver/src/model.rs.
pub mod Ending
pub mod Reaches
pub mod Kept
use leanbun.Base.{
  ℕ, zero, suc, ◌+◌, Bool, true, false, not, ◌&&◌, ◌||◌, List, [], ◌∷◌, ◌++◌, map, Option, none,
  some, length, any, eqb, filter, if◌then◌else◌, Result, ok, err, ◌>>=◌, ◌>>◌, reject_if, ◌==◌,
}
use leanbun.Base.TreeMap.{TreeMap, get, insert, contains_key}
use leanbun.Lock.Model.{PackageKey, key_equal, key_ord, LockedPackage}
use leanbun.Resolver.Model.{ErrorKind, ResolutionError, error, Candidate, Mode, ResolvedPackage}
use leanbun.Resolver.Selecting.{ActiveLock, candidate_matches_lock}
use leanbun.Resolver.Cycles.{Packages, package_map}

-- a `BTreeSet`
abbrev pub KeySet : Type 0
KeySet = TreeMap PackageKey (Unit {0})

-- the two maps differ in their packages only: `deps` are those of one
module _ {V : Type 0} (deps : V → List PackageKey) (m : TreeMap PackageKey V) where
  -- `filter_map(|key| map.get(key).map(|package| package.key()))`
  unfoldable pub known : List PackageKey → List PackageKey
  unfolding contains_key key_ord
  known keys = filter (λ k. contains_key k m) keys

  -- what a key that is taken off the queue adds to it
  unfoldable pub children : PackageKey → List PackageKey
  unfolding known get key_ord
  children key = elim (get key m) [ none ↦ [] | some p ↦ known (deps p) ]

  -- `while let Some(key) = queue.pop_front()`
  unfoldable pub close : ℕ → List PackageKey → KeySet → Option KeySet
  unfolding children contains_key insert key_ord
  close zero queue impact = none
  close (suc fuel) queue impact = elim queue [
    | [] ↦ some impact
    | key ∷ rest ↦ elim (contains_key key impact) [
      | true ↦ close fuel rest impact
      | false ↦ close fuel (rest ++ children key) (insert key tt impact)
    ]
  ]

-- the number of dependencies of all packages
unfoldable pub count_edges : {V : Type 0} → (V → List PackageKey) → TreeMap PackageKey V → ℕ
count_edges deps [] = 0
count_edges deps ((k, p) ∷ m) = length (deps p) + count_edges deps m

-- Each round takes a key off the queue, and each package adds its dependencies once.
unfoldable pub impact_closure :
    {V : Type 0} → (V → List PackageKey) → TreeMap PackageKey V → List PackageKey → Option KeySet
unfolding known close count_edges
impact_closure deps m targets =
    close deps m (length targets + count_edges deps m + 1) (known deps m targets) []

unfoldable pub active_impact_closure : ActiveLock → List PackageKey → Option KeySet
unfolding impact_closure
active_impact_closure active targets = impact_closure (λ p. p.dependencies) active targets

unfoldable pub selected_impact_closure : Packages → List PackageKey → Option KeySet
unfolding impact_closure
selected_impact_closure packages targets = impact_closure (λ p. p.dependencies) packages targets

-- `for target in update_set`: one that neither map has
unfoldable pub has_unknown_target : ActiveLock → Packages → List PackageKey → Bool
unfolding contains_key key_ord
has_unknown_target active selected targets =
    any (λ t. not (contains_key t active) && not (contains_key t selected)) targets

-- the loop over the selected packages: one that is not the locked one and not in the closure
unfoldable pub has_escaped : ActiveLock → KeySet → Packages → Bool
unfolding get contains_key key_ord candidate_matches_lock
has_escaped active impact [] = false
has_escaped active impact ((key, p) ∷ rest) =
    elim (get key active) [
      | none ↦ false
      | some old ↦ not (contains_key key impact) && not (candidate_matches_lock p.candidate old)
    ]
    || has_escaped active impact rest

-- the loop over the keys of the lock: one that is gone and not in the closure
unfoldable pub has_disappeared : Packages → KeySet → ActiveLock → Bool
unfolding contains_key key_ord
has_disappeared selected impact [] = false
has_disappeared selected impact ((key, p) ∷ rest) =
    not (contains_key key selected) && not (contains_key key impact)
    || has_disappeared selected impact rest

-- `active.iter().any(..)` of a frozen resolution
unfoldable pub has_drift : Packages → ActiveLock → Bool
unfolding get key_ord candidate_matches_lock
has_drift selected [] = false
has_drift selected ((key, p) ∷ rest) =
    elim (get key selected) [
      | none ↦ true
      | some resolved ↦ not (candidate_matches_lock resolved.candidate p)
    ]
    || has_drift selected rest

-- `impact.extend(..)`
unfoldable pub extend_set : KeySet → KeySet → KeySet
unfolding insert key_ord
extend_set s [] = s
extend_set s ((k, _) ∷ rest) = extend_set (insert k tt s) rest

unfoldable pub set_keys : KeySet → List PackageKey
set_keys [] = []
set_keys ((k, _) ∷ rest) = k ∷ set_keys rest

-- the two closures together; the model's own error where one has no fuel left
unfoldable pub both_closures :
    ActiveLock → Packages → List PackageKey → Result ResolutionError KeySet
unfolding active_impact_closure selected_impact_closure extend_set
both_closures active selected targets = elim (active_impact_closure active targets) [
  | none ↦ err (error ErrorKind.out_of_fuel)
  | some impact ↦ elim (selected_impact_closure selected targets) [
    | none ↦ err (error ErrorKind.out_of_fuel)
    | some further ↦ ok (extend_set impact further)
  ]
]

unfoldable pub lock_map : List LockedPackage → ActiveLock → ActiveLock
unfolding insert key_ord
lock_map [] m = m
lock_map (p ∷ ps) m = lock_map ps (insert p.key p m)

-- the part of validate_mode_result that follows when there is an active lock
unfoldable pub validate_against_lock :
    Mode → ActiveLock → Packages → List PackageKey → Result ResolutionError (List PackageKey)
unfolding has_drift has_unknown_target both_closures has_escaped has_disappeared set_keys
validate_against_lock Mode.frozen active selected targets =
    reject_if (not (eqb (length active) (length selected)) || has_drift selected active)
      (error ErrorKind.frozen_graph_drift)
    >> ok []
validate_against_lock (Mode.update _) active selected targets =
    reject_if (has_unknown_target active selected targets) (error ErrorKind.unknown_update_target)
    >> both_closures active selected targets
    >>= λ impact.
        reject_if (has_escaped active impact selected)
          (error ErrorKind.update_escapes_impact_closure)
        >> reject_if (has_disappeared selected impact active)
            (error ErrorKind.update_escapes_impact_closure)
        >> ok (set_keys impact)

-- and the part when there is none
unfoldable pub validate_without_lock : Mode → Packages → Result ResolutionError (List PackageKey)
unfolding contains_key key_ord
validate_without_lock Mode.frozen selected = ok []
validate_without_lock (Mode.update targets) selected =
    reject_if (any (λ t. not (contains_key t selected)) targets)
      (error ErrorKind.unknown_update_target)
    >> ok []

unfoldable pub validate_mode_result :
    Option (List LockedPackage)
    → Mode
    → List ResolvedPackage
    → List PackageKey
    → Result ResolutionError (List PackageKey)
unfolding package_map lock_map validate_against_lock validate_without_lock
validate_mode_result none mode packages targets =
    validate_without_lock mode (package_map packages [])
validate_mode_result (some locked) mode packages targets =
    validate_against_lock mode (lock_map locked []) (package_map packages []) targets
