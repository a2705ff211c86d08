-- ===== src/Resolver/Resolve/Ending.antt =====
-- The fuel of the loops of resolve_lean_dependencies_v1.
use leanbun.Base.{
  ℕ, zero, suc, ◌+◌, ◌≤◌, ◌<◌, List, [], ◌∷◌, map, reverse, length, ltb, Option, none, some, ◌≡◌,
  ok, err, ◌>>=◌, reject_if, Result, sort_by, has_repeat, bytes_equal, arith, Bool-cases, inl, inr,
  le_of_ltb,
}
use leanbun.Base.TreeMap.{get, insert}
use leanbun.Lock.Model
use leanbun.Lock.Model.{Text, PackageKey, key_ord, LockedPackage}
use leanbun.Lock.Fields.{parse_url}
use leanbun.Resolver.Model.{
  ErrorKind, ResolutionError, error, Mode, Candidate, Requirement, ResolvedPackage, Origin,
}
use leanbun.Resolver.Fields
use leanbun.Resolver.Fields.{
  Checked, validate_text, validate_relative_path, request_git, request_reservoir, request_path,
  update_set, starts_with_slash,
}
use leanbun.Resolver.Stops.{Stops, Stops->>=, Stops-reject_if, Stops-ok}
use leanbun.Resolver.Selecting.{Context, Selection, ActiveLock, select_requirement, drain}
use leanbun.Resolver.Selecting.Step.{IsKeyed}
use leanbun.Resolver.Selecting.Ending.{potential, select_requirement-Stops, drain-Stops}
use leanbun.Resolver.Cycles.{
  Packages, States, package_map, visit_each, visit, map_keys, validate_cycles_and_depth,
}
use leanbun.Resolver.Impact.{
  both_closures, active_impact_closure, selected_impact_closure, extend_set, has_escaped,
  has_disappeared, set_keys, lock_map, validate_against_lock, validate_without_lock,
  validate_mode_result,
}
use leanbun.Resolver.Impact.Ending.{impact_closure_ends}
use leanbun.Resolver.Resolve.{
  Request, RootDependency, LakeSource, checked_url, from_root, root_requirements, select_roots,
  compare_candidates, context_of, empty_selection, finish_graph, resolve, resolved_packages,
  locked_packages,
}
use leanbun.Resolver.Resolve.Chosen.{registry-IsSupplied}

visit_each-Stops :
    (step : PackageKey → States → Result ResolutionError States)
    → ((k : PackageKey) (s : States) → Stops (step k s))
    → (ks : List PackageKey) (s : States) → Stops (visit_each step ks s)
unfolding visit_each Stops
visit_each-Stops step h [] s = tt
visit_each-Stops step h (k ∷ ks) s =
    Stops->>= (step k s) (visit_each step ks) (h k s) (λ t e. visit_each-Stops step h ks t)

further-Stops :
    (fuel : ℕ) (k : PackageKey) (depth : ℕ) (packages : Packages) (s : States)
    → ((d : PackageKey) (t : States) → Stops (visit fuel d (depth + 1) packages t))
    → Stops (elim (get k packages) as (λ _. Result ResolutionError States) [
      | none ↦ err (error ErrorKind.missing_transitive_declaration)
      | some p ↦
          visit_each (λ d t. visit fuel d (depth + 1) packages t) p.dependencies (insert k 1 s)
          >>= λ t. ok (insert k 2 t)
    ])
further-Stops fuel k depth packages s h = by_package (get k packages)
  where
    by_package :
        (o : Option ResolvedPackage)
        → Stops (elim o as (λ _. Result ResolutionError States) [
          | none ↦ err (error ErrorKind.missing_transitive_declaration)
          | some p ↦
              visit_each (λ d t. visit fuel d (depth + 1) packages t) p.dependencies (insert k 1 s)
              >>= λ t. ok (insert k 2 t)
        ])
    by_package none = unfold Stops in (λ x. cc)
    by_package (some p) =
        Stops->>= _ (λ t. ok (insert k 2 t))
          (visit_each-Stops (λ d t. visit fuel d (depth + 1) packages t) h p.dependencies
            (insert k 1 s))
          (λ t e. unfold Stops in tt)

state-Stops :
    (o : Option ℕ) (s : States) (further : Result ResolutionError States)
    → Stops further
    → Stops (elim o as (λ _. Result ResolutionError States) [
      | some (suc zero) ↦ err (error ErrorKind.dependency_cycle)
      | some (suc (suc zero)) ↦ ok s
      | _ ↦ further
    ])
state-Stops none s further h = h
state-Stops (some zero) s further h = h
state-Stops (some (suc zero)) s further h = unfold Stops in (λ x. cc)
state-Stops (some (suc (suc zero))) s further h = unfold Stops in tt
state-Stops (some (suc (suc (suc n)))) s further h = h

-- the test of the depth comes before the fuel is used up
visit-Stops :
    (fuel : ℕ) (k : PackageKey) (depth : ℕ) (packages : Packages) (s : States)
    → 130 ≤ fuel + depth
    → 0 < fuel
    → Stops (visit fuel k depth packages s)
unfolding visit
visit-Stops zero k depth packages s enough some_fuel = absurd (omega arith)
visit-Stops (suc fuel) k depth packages s enough some_fuel = elim (Bool-cases (ltb 128 depth)) [
  | inl deep ↦ rw (deep, visit) (unfold Stops in (λ x. cc))
  | inr shallow ↦
      let near : depth ≤ 128 = le_of_ltb 128 depth shallow in
      rw (shallow, visit)
        (state-Stops (get k s) s _ (
          further-Stops fuel k depth packages s
            (λ d t. visit-Stops fuel d (depth + 1) packages t (omega arith) (omega arith))))
]

validate_cycles-Stops : (ps : List ResolvedPackage) → Stops (validate_cycles_and_depth ps)
unfolding validate_cycles_and_depth
validate_cycles-Stops ps =
    let m = package_map ps [] in
    Stops->>= _ (λ _. ok tt)
      (visit_each-Stops (λ k s. visit 129 k 1 m s)
        (λ k s. visit-Stops 129 k 1 m s (omega arith) (omega arith)) (map_keys m) [])
      (λ s e. unfold Stops in tt)

closures_stop :
    (active : ActiveLock) (selected : Packages) (targets : List PackageKey)
    → Stops (both_closures active selected targets)
unfolding both_closures active_impact_closure selected_impact_closure
closures_stop active selected targets =
    let (s, e) = impact_closure_ends (λ (p : LockedPackage). p.dependencies) active targets in
    let (t, f) = impact_closure_ends (λ (p : ResolvedPackage). p.dependencies) selected targets in
    let first : active_impact_closure active targets ≡ some s = e in
    let second : selected_impact_closure selected targets ≡ some t = f in
    rw (first, second, both_closures) (Stops-ok (extend_set s t))

against_lock-Stops :
    (mode : Mode) (active : ActiveLock) (selected : Packages) (targets : List PackageKey)
    → Stops (validate_against_lock mode active selected targets)
unfolding validate_against_lock
against_lock-Stops Mode.frozen active selected targets =
    Stops->>= _ _ (Stops-reject_if _ ErrorKind.frozen_graph_drift (λ x. cc)) (λ u e. Stops-ok [])
against_lock-Stops (Mode.update packages) active selected targets =
    Stops->>= _ _
      (Stops->>= _ _ (Stops-reject_if _ ErrorKind.unknown_update_target (λ x. cc))
        (λ u e. closures_stop active selected targets))
      (λ s e.
        Stops->>= _ _
          (Stops->>=
            (reject_if (has_escaped active s selected)
              (error ErrorKind.update_escapes_impact_closure))
            (λ _.
              reject_if (has_disappeared selected s active)
                (error ErrorKind.update_escapes_impact_closure))
            (Stops-reject_if (has_escaped active s selected) ErrorKind.update_escapes_impact_closure
              (λ x. cc))
            (λ u f.
              Stops-reject_if (has_disappeared selected s active)
                ErrorKind.update_escapes_impact_closure (λ x. cc)))
          (λ u f. Stops-ok (set_keys s)))

without_lock-Stops :
    (mode : Mode) (selected : Packages) → Stops (validate_without_lock mode selected)
unfolding validate_without_lock
without_lock-Stops Mode.frozen selected = Stops-ok []
without_lock-Stops (Mode.update targets) selected =
    Stops->>= _ _ (Stops-reject_if _ ErrorKind.unknown_update_target (λ x. cc)) (λ u e. Stops-ok [])

mode_result-Stops :
    (locked : Option (List LockedPackage)) (mode : Mode) (ps : List ResolvedPackage)
    (targets : List PackageKey)
    → Stops (validate_mode_result locked mode ps targets)
unfolding validate_mode_result
mode_result-Stops none mode ps targets = without_lock-Stops mode (package_map ps [])
mode_result-Stops (some locked) mode ps targets =
    against_lock-Stops mode (lock_map locked []) (package_map ps []) targets

finish-Stops :
    (request : Request) (roots : List PackageKey) (s : Selection)
    → Stops (finish_graph request roots s)
unfolding finish_graph
finish-Stops request roots s =
    Stops->>= _ _
      (Stops->>= _ _
        (Stops->>= _ _ (Stops-reject_if _ ErrorKind.limit_exceeded (λ x. cc))
          (λ u e. validate_cycles-Stops (resolved_packages s.selected)))
        (λ u e.
          mode_result-Stops (locked_packages request.active_lock) request.mode
            (resolved_packages s.selected) (update_set request.mode)))
      (λ impact e. Stops-ok _)

select_roots-Stops :
    (ctx : Context) (keyed : IsKeyed ctx.registry) (rs : List (ℕ × Requirement)) (s : Selection)
    (roots : List PackageKey)
    → Stops (select_roots ctx rs (s, roots))
unfolding select_roots
select_roots-Stops ctx keyed [] s roots = Stops-ok (s, roots)
select_roots-Stops ctx keyed ((i, r) ∷ rest) s roots =
    Stops->>= (select_requirement ctx r (Origin.root i) s) _
      (select_requirement-Stops ctx keyed r (Origin.root i) s)
      (λ t e. select_roots-Stops ctx keyed rest t _)

checked_text : (value : Text) → Stops (validate_text value)
unfolding validate_text
checked_text value = Stops-reject_if _ ErrorKind.invalid_field (λ x. cc)

checked_path : (value : Text) → Stops (validate_relative_path value)
unfolding validate_relative_path
checked_path value =
    Stops->>= _ _ (checked_text value) (λ u e. Stops-reject_if _ ErrorKind.invalid_field (λ x. cc))

checked_optional :
    (validate : Text → Checked) (value : Option Text)
    → ((t : Text) → Stops (validate t))
    → Stops (Fields.validate_optional validate value)
unfolding Fields.validate_optional
checked_optional validate none h = Stops-ok tt
checked_optional validate (some t) h = h t

git-Stops : (url : Text) (revision subdir : Option Text) → Stops (request_git url revision subdir)
unfolding request_git
git-Stops url revision subdir =
    Stops->>= _ _
      (Stops->>= _ _ (checked_optional validate_text revision checked_text)
        (λ u e. checked_optional validate_relative_path subdir checked_path))
      (λ u e. Stops-ok _)

from_root-Stops : (version : Option Text) (source : LakeSource) → Stops (from_root version source)
unfolding from_root checked_url request_path request_reservoir
from_root-Stops version (LakeSource.git url revision subdir) =
    Stops->>= _ _ (by_url (parse_url url)) (λ canonical e. git-Stops canonical revision subdir)
  where
    by_url :
        (m : Result Model.LockErrorKind Text)
        → Stops (elim m as (λ _. Result ResolutionError Text) [
          | ok canonical ↦ ok canonical
          | err _ ↦ err (error ErrorKind.invalid_field)
        ])
    by_url (ok canonical) = Stops-ok canonical
    by_url (err kind) = unfold Stops in (λ x. cc)
from_root-Stops version (LakeSource.path directory) =
    Stops->>= _ _ (checked_path directory) (λ u e. Stops-ok _)
from_root-Stops version LakeSource.reservoir =
    Stops->>= _ _ (checked_optional validate_text version checked_text) (λ u e. Stops-ok _)

root_requirements-Stops : (n : ℕ) (ds : List RootDependency) → Stops (root_requirements n ds)
unfolding root_requirements
root_requirements-Stops n [] = Stops-ok []
root_requirements-Stops n (d ∷ ds) =
    Stops->>= (from_root d.version d.source) _ (from_root-Stops d.version d.source) (λ source e.
      Stops->>= (root_requirements (n + 1) ds) _ (root_requirements-Stops (n + 1) ds)
        (λ rest f. Stops-ok _))

-- A resolution never runs out of the fuel of its loops: for every request and all candidates it returns
-- a graph or one of the program's own errors.
pub resolve_ends :
    (request : Request) (candidates : List Candidate) → Stops (resolve request candidates)
unfolding resolve
resolve_ends request candidates =
    let ctx = context_of request (sort_by compare_candidates candidates) in
    let from = registry-IsSupplied request candidates in
    let repeated =
      has_repeat (map (λ (c : Candidate). c.identity) (sort_by compare_candidates candidates)) in
    Stops->>= _ _
      (Stops->>= _ _
        (Stops->>= (reject_if (ltb 16384 (length candidates)) (error ErrorKind.limit_exceeded))
          (λ _. reject_if repeated (error ErrorKind.duplicate_candidate_identity))
          (Stops-reject_if (ltb 16384 (length candidates)) ErrorKind.limit_exceeded (λ x. cc))
          (λ u e. Stops-reject_if repeated ErrorKind.duplicate_candidate_identity (λ x. cc)))
        (λ u e. root_requirements-Stops 0 request.root.dependencies))
      (λ requirements e.
        Stops->>= (select_roots ctx (reverse requirements) (empty_selection, [])) _
          (select_roots-Stops ctx from.keyed (reverse requirements) empty_selection [])
          (λ (s, roots) f.
            Stops->>= (drain (potential ctx s + 1) ctx s) _
              (drain-Stops ctx from.keyed (potential ctx s + 1) s (omega arith))
              (λ t g. finish-Stops request roots t)))
