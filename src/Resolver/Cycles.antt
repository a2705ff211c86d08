-- ===== src/Resolver/Cycles.antt =====
-- validate_cycles_and_depth of rust/crates/leanbun-resolver/src/model.rs.
pub mod Settled
use leanbun.Base.{
  ℕ, zero, suc, ◌+◌, List, [], ◌∷◌, none, some, ltb, if◌then◌else◌, Result, ok, err, ◌>>=◌,
}
use leanbun.Base.TreeMap.{TreeMap, get, insert}
use leanbun.Lock.Model.{PackageKey, key_ord}
use leanbun.Resolver.Model.{ErrorKind, ResolutionError, error, ResolvedPackage}

abbrev pub Packages : Type 0
Packages = TreeMap PackageKey ResolvedPackage

-- 1 on the way, 2 done; a key that is not there is new
abbrev pub States : Type 0
States = TreeMap PackageKey ℕ

-- `packages.iter().map(|package| (package.key(), package)).collect()`
unfoldable pub package_map : List ResolvedPackage → Packages → Packages
unfolding insert key_ord
package_map [] m = m
package_map (p ∷ ps) m = package_map ps (insert p.candidate.key p m)

-- the loop over the dependencies; `visit` is the recursive call
unfoldable pub visit_each :
    (PackageKey → States → Result ResolutionError States)
    → List PackageKey
    → States
    → Result ResolutionError States
visit_each visit [] states = ok states
visit_each visit (d ∷ ds) states = visit d states >>= visit_each visit ds

-- the test of the depth ends the recursion: it goes at most 129 deep
unfoldable pub visit : ℕ → PackageKey → ℕ → Packages → States → Result ResolutionError States
unfolding get insert key_ord visit_each
visit zero key depth packages states = err (error ErrorKind.out_of_fuel)
visit (suc fuel) key depth packages states =
    let entered = insert key 1 states in
    let further : Result ResolutionError States = elim (get key packages) [
      | none ↦ err (error ErrorKind.missing_transitive_declaration)
      | some p ↦
          visit_each (λ d s. visit fuel d (depth + 1) packages s) p.dependencies entered >>= λ s.
          ok (insert key 2 s)
    ] in
    if ltb 128 depth then err (error ErrorKind.graph_too_deep) else elim (get key states) [
      | some (suc zero) ↦ err (error ErrorKind.dependency_cycle)
      | some (suc (suc zero)) ↦ ok states
      | _ ↦ further
    ]

unfoldable pub map_keys : Packages → List PackageKey
map_keys [] = []
map_keys ((k, p) ∷ m) = k ∷ map_keys m

unfoldable pub validate_cycles_and_depth : List ResolvedPackage → Result ResolutionError (Unit {0})
unfolding package_map visit visit_each map_keys
validate_cycles_and_depth packages =
    let m = package_map packages [] in
    visit_each (λ k s. visit 129 k 1 m s) (map_keys m) [] >>= λ _. ok tt
