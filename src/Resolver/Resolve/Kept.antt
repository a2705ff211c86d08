-- ===== src/Resolver/Resolve/Kept.antt =====
-- resolve_lean_dependencies_v1 and the packages of the active lock.
use leanbun.Base.{
  ℕ, ◌+◌, List, [], map, reverse, length, ltb, Option, none, some, true, ◌≡◌, sym, ap, ◌∙◌, subst,
  ◌⊎◌, inl, inr, Within, ok, ◌>>◌, >>=-eq-ok, reject_if, Result, sort_by, has_repeat, bytes_equal,
}
use leanbun.Base.TreeMap.{get}
use leanbun.Lock.Model
use leanbun.Lock.Model.{PackageKey, key_ord, LockedPackage}
use leanbun.Lock.Build.Laws.{IsSoundLock}
use leanbun.Resolver.Model.{
  ErrorKind, ResolutionError, error, Mode, Candidate, Requirement, ResolvedPackage,
}
use leanbun.Resolver.Fields.{update_set}
use leanbun.Resolver.Selecting.{Selection, candidate_matches_lock, drain}
use leanbun.Resolver.Selecting.Ending.{potential}
use leanbun.Resolver.Cycles.{package_map, validate_cycles_and_depth}
use leanbun.Resolver.Impact.{lock_map, validate_mode_result}
use leanbun.Resolver.Impact.Kept.{
  validate_against_lock_lem, validate_frozen, package_map-Within, lock_map_lem,
}
use leanbun.Resolver.Resolve.{
  Request, ResolutionGraph, resolve, finish_graph, resolved_packages, locked_packages,
  compare_candidates, context_of, root_requirements, select_roots, empty_selection,
}

-- the parts of a graph that the end of the resolution has built
pub record IsFinished (request : Request) (s : Selection) (g : ResolutionGraph) : Type 0 where
  pub packages : g.packages ≡ resolved_packages s.selected
  pub acyclic : validate_cycles_and_depth (resolved_packages s.selected) ≡ ok tt
  pub impact :
      validate_mode_result
        (locked_packages request.active_lock)
        request.mode
        (resolved_packages s.selected)
        (update_set request.mode)
      ≡ ok g.impact_closure

pub finish_graph-IsFinished :
    (request : Request) (roots : List PackageKey) (s : Selection) (g : ResolutionGraph)
    → finish_graph request roots s ≡ ok g
    → IsFinished request s g
unfolding finish_graph
finish_graph-IsFinished request roots s g h =
    let (impact, tested, is) =
      >>=-eq-ok
        (reject_if (ltb 4096 (length s.selected)) (error ErrorKind.limit_exceeded)
          >> validate_cycles_and_depth (resolved_packages s.selected)
          >> validate_mode_result (locked_packages request.active_lock) request.mode
              (resolved_packages s.selected) (update_set request.mode))
        _ h in
    let (u, before, mode) =
      >>=-eq-ok
        (reject_if (ltb 4096 (length s.selected)) (error ErrorKind.limit_exceeded)
          >> validate_cycles_and_depth (resolved_packages s.selected))
        (λ _.
          validate_mode_result (locked_packages request.active_lock) request.mode
            (resolved_packages s.selected) (update_set request.mode))
        tested in
    let (v, few, acyclic) =
      >>=-eq-ok (reject_if (ltb 4096 (length s.selected)) (error ErrorKind.limit_exceeded))
        (λ _. validate_cycles_and_depth (resolved_packages s.selected)) before in
    let (same_packages, same_impact) = graph_is _ g is in
    record { packages = sym same_packages; acyclic = acyclic; impact = mode ∙ ap ok same_impact }
  where
    graph_is :
        (a b : ResolutionGraph)
        → ◌≡◌ {A = Result ResolutionError ResolutionGraph} (ok a) (ok b)
        → (a.packages ≡ b.packages) × (a.impact_closure ≡ b.impact_closure)
    graph_is a b e = (cc, cc)

-- how a resolution comes to its selection
pub record IsResolved (request : Request) (candidates : List Candidate) (g : ResolutionGraph)
    : Type 0 where
  pub requirements : List (ℕ × Requirement)
  pub roots : List PackageKey
  pub start : Selection
  pub end : Selection
  pub root_ok : root_requirements 0 request.root.dependencies ≡ ok requirements
  pub selected :
      select_roots
        (context_of request (sort_by compare_candidates candidates))
        (reverse requirements)
        (empty_selection, [])
      ≡ ok (start, roots)
  pub drained :
      drain
        (potential (context_of request (sort_by compare_candidates candidates)) start + 1)
        (context_of request (sort_by compare_candidates candidates))
        start
      ≡ ok end
  pub finished : finish_graph request roots end ≡ ok g

pub resolve-IsResolved :
    (request : Request) (candidates : List Candidate) (g : ResolutionGraph)
    → resolve request candidates ≡ ok g
    → IsResolved request candidates g
unfolding resolve
resolve-IsResolved request candidates g h =
    let ctx = context_of request (sort_by compare_candidates candidates) in
    let tests =
      reject_if (ltb 16384 (length candidates)) (error ErrorKind.limit_exceeded)
      >> reject_if
          (has_repeat (map (λ (c : Candidate). c.identity) (sort_by compare_candidates candidates)))
          (error ErrorKind.duplicate_candidate_identity) in
    let (requirements, tested, further) =
      >>=-eq-ok (tests >> root_requirements 0 request.root.dependencies) _ h in
    let (u, unique, root_ok) =
      >>=-eq-ok tests (λ _. root_requirements 0 request.root.dependencies) tested in
    let ((s, roots), selected, more) =
      >>=-eq-ok (select_roots ctx (reverse requirements) (empty_selection, [])) _ further in
    let (t, drained, finished) = >>=-eq-ok (drain (potential ctx s + 1) ctx s) _ more in
    record {
      requirements = requirements;
      roots = roots;
      start = s;
      end = t;
      root_ok = root_ok;
      selected = selected;
      drained = drained;
      finished = finished;
    }

-- the packages of the graph are those of the map that the lock is compared with
in_graph :
    (request : Request) (s : Selection) (g : ResolutionGraph)
    → IsFinished request s g
    → (k : PackageKey) (q : ResolvedPackage)
    → get k (package_map (resolved_packages s.selected) []) ≡ some q
    → Within q g.packages
unfolding get
in_graph request s g f k q e =
    subst (Within q) (sym f.packages)
      (left (package_map-Within (resolved_packages s.selected) [] k q e))
  where
    left : {A : Type 0} → A ⊎ (◌≡◌ {A = Option ResolvedPackage} none (some q)) → A
    left (inl a) = a
    left (inr x) = cc

module _ (request : Request) (candidates : List Candidate) (g : ResolutionGraph) (lock : Model.Lock)
    (sound : IsSoundLock lock) (locked : request.active_lock ≡ some lock)
    (resolved : resolve request candidates ≡ ok g) where
  -- If a request with an active lock that is sound is resolved, every package of the lock is in the
  -- graph with a candidate that matches it, or its key is in the graph's impact closure.
  pub resolve-keeps_lock :
      (p : LockedPackage)
      → Within p lock.packages
      → ((q : ResolvedPackage) × Within q g.packages
          × (candidate_matches_lock q.candidate p ≡ true))
        ⊎ Within p.key g.impact_closure
  unfolding validate_mode_result locked_packages
  resolve-keeps_lock p w =
      let r = resolve-IsResolved request candidates g resolved in
      let f = finish_graph-IsFinished request r.roots r.end g r.finished in
      let impact = rw locked at f.impact in
      elim (validate_against_lock_lem request.mode (lock_map lock.packages [])
        (package_map (resolved_packages r.end.selected) []) (update_set request.mode)
        g.impact_closure impact p.key p (lock_map_lem lock.packages [] p sound.ascends w)) [
          | inl (q, found, same) ↦ inl (q, in_graph request r.end g f p.key q found, same)
          | inr inside ↦ inr inside
        ]

  -- If such a request is frozen, every package of the lock is in the graph with a candidate that
  -- matches it.
  pub resolve_frozen :
      request.mode ≡ Mode.frozen
      → (p : LockedPackage) → Within p lock.packages
      → (q : ResolvedPackage) × Within q g.packages × (candidate_matches_lock q.candidate p ≡ true)
  unfolding validate_mode_result locked_packages
  resolve_frozen frozen p w =
      let r = resolve-IsResolved request candidates g resolved in
      let f = finish_graph-IsFinished request r.roots r.end g r.finished in
      let impact = rw (locked, frozen) at f.impact in
      let empty =
        validate_frozen (lock_map lock.packages [])
          (package_map (resolved_packages r.end.selected) []) (update_set Mode.frozen)
          g.impact_closure impact in
      elim (resolve-keeps_lock p w) [
        | inl found ↦ found
        | inr inside ↦ absurd (subst (Within p.key) empty inside)
      ]
