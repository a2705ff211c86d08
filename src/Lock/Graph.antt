-- ===== src/Lock/Graph.antt =====
-- validate_graph and visit_graph of rust/crates/leanbun-lock/src/lock_v1.rs.
pub mod Ranks
pub mod Chains
pub mod Ending
use leanbun.Base.{
  ℕ, zero, suc, ◌+◌, max, Bool, true, false, not, List, [], ◌∷◌, Option, none, some, length,
  get_elem?, all, ltb, eqb, if◌then◌else◌, Result, ok, err, ◌>>=◌, ◌>>◌, reject_if,
}
use leanbun.Base.TreeMap.{TreeMap, get, contains_key, insert}
use leanbun.Lock.Model.{PackageKey, key_ord, LockedPackage, LockErrorKind}
use leanbun.Lock.Fields.{Made}

abbrev pub Indices : Type 0
Indices = TreeMap PackageKey ℕ

-- `packages.iter().enumerate().map(..).collect()`, from an index
unfoldable pub index_from : ℕ → List LockedPackage → Indices → Indices
unfolding insert key_ord
index_from n [] m = m
index_from n (p ∷ ps) m = index_from (n + 1) ps (insert p.key n m)

-- The vectors `states` and `depths`. Every index that is used is that of a package, so that they are
-- functions here.
pub record Visits : Type 0 where
  pub states : ℕ → ℕ
  pub depths : ℕ → ℕ

unfoldable pub update_at : (ℕ → ℕ) → ℕ → ℕ → ℕ → ℕ
update_at f i v j = if eqb j i then v else f j

-- `packages[index].dependencies`
unfoldable pub dependencies_at : List LockedPackage → ℕ → List PackageKey
dependencies_at packages index = elim (get_elem? packages index) [
  | none ↦ []
  | some p ↦ p.dependencies
]

-- the loop over the dependencies; `visit` is the recursive call
unfoldable pub visit_dependencies :
    (ℕ → Visits → Made (ℕ × Visits)) → Indices → List PackageKey → ℕ → Visits → Made (ℕ × Visits)
unfolding get key_ord
visit_dependencies visit indices [] depth s = ok (depth, s)
visit_dependencies visit indices (d ∷ ds) depth s = elim (get d indices) [
  | none ↦ err LockErrorKind.missing_package
  | some next ↦ visit next s >>= λ r. visit_dependencies visit indices ds (max depth (1 + r.0)) r.1
]

-- the end of visit_graph
unfoldable pub settle : ℕ → ℕ × Visits → Made (ℕ × Visits)
unfolding update_at
settle index (depth, s) =
    if ltb 128 depth
    then err LockErrorKind.graph_too_deep
    else ok (
      depth,
      record { states = update_at s.states index 2; depths = update_at s.depths index depth },
    )

-- visit_graph; the depth of the recursion is at most the number of packages
unfoldable pub visit_graph : ℕ → List LockedPackage → Indices → ℕ → Visits → Made (ℕ × Visits)
unfolding update_at dependencies_at visit_dependencies settle
visit_graph zero packages indices index s = err LockErrorKind.out_of_fuel
visit_graph (suc fuel) packages indices index s =
    let further =
      visit_dependencies (visit_graph fuel packages indices) indices
        (dependencies_at packages index) 1 (record s { states = update_at s.states index 1 })
      >>= settle index in
    if eqb (s.states index) 1
    then err LockErrorKind.dependency_cycle
    else if eqb (s.states index) 2
    then ok (s.depths index, s)
    else further

-- `for index in 0..packages.len()`: the rounds that are left, and the next index
unfoldable pub visit_all : ℕ → List LockedPackage → Indices → ℕ → Visits → Made Visits
unfolding visit_graph
visit_all zero packages indices index s = ok s
visit_all (suc rounds) packages indices index s =
    visit_graph (length packages + 1) packages indices index s >>= λ r.
    visit_all rounds packages indices (index + 1) r.1

-- the first loop of validate_graph: every dependency is the key of a package
unfoldable pub has_dependencies : Indices → List LockedPackage → Bool
unfolding contains_key key_ord
has_dependencies indices [] = true
has_dependencies indices (p ∷ ps) =
    if all (λ d. contains_key d indices) p.dependencies then has_dependencies indices ps else false

abbrev pub unvisited : Visits
unvisited = record { states = λ _. 0; depths = λ _. 0 }

unfoldable pub validate_graph : List LockedPackage → Made (Unit {0})
unfolding index_from has_dependencies visit_all
validate_graph packages =
    let indices = index_from 0 packages [] in
    reject_if (not (has_dependencies indices packages)) LockErrorKind.missing_package
    >> (visit_all (length packages) packages indices 0 unvisited >>= λ _. ok tt)
