-- ===== src/Resolver/Resolve/Chosen.antt =====
-- What the loops of resolve_lean_dependencies_v1 have selected, and the packages that they make of it.
use leanbun.Base.{
  Within-map, Within-map_inverse, ℕ, List, [], ◌∷◌, ◌++◌, map, reverse, Option, none, some, ◌≡◌,
  refl, sym, ap, ◌∙◌, subst, inl, inr, Within, Within-append_cases, Within-sort_by, sort_by-Within,
  ok, >>=-eq-ok, Result, sort_by,
}
use leanbun.Base.TreeMap.{TreeMap, get, insert, get-insert_cases, IsAscending}
use leanbun.Base.Entries.{get-Within, Within-get}
use leanbun.Lock.Model.{PackageKey, key_ord, compare_keys}
use leanbun.Resolver.Model.{
  ResolutionError, Candidate, Requirement, ResolvedPackage, Selected, Origin,
}
use leanbun.Resolver.Selecting.{Context, Selection, Registry, select_requirement}
use leanbun.Resolver.Selecting.Step.{
  IsKeyed, Grows, Grows-refl, Grows-trans, Meets, Meets-keeps, select_requirement-Grows,
}
use leanbun.Resolver.Selecting.Closure.{IsSound, Grows-IsSound, drain-IsSound, drain-IsAscending}
use leanbun.Resolver.Resolve.{
  Request, ResolutionGraph, resolve, resolved_package, resolved_packages, build_registry,
  push_candidate, compare_candidates, context_of, select_roots, empty_selection,
}
use leanbun.Resolver.Resolve.Kept.{resolve-IsResolved, IsResolved, finish_graph-IsFinished}

-- each list of the registry holds candidates with its key, which were supplied
pub record IsSupplied (candidates : List Candidate) (registry : Registry) : Type 0 where
  pub keyed : IsKeyed registry
  pub supplied :
      (k : PackageKey) (cs : List Candidate)
      → get k registry ≡ some cs
      → (c : Candidate) → Within c cs
      → Within c candidates

push_candidate-IsSupplied :
    (candidates : List Candidate) (c : Candidate) (registry : Registry)
    → Within c candidates
    → IsSupplied candidates registry
    → IsSupplied candidates (push_candidate c registry)
unfolding push_candidate
push_candidate-IsSupplied candidates c registry w h = by_entry (get c.key registry) refl
  where
    pushed :
        (cs : List Candidate)
        → ((d : Candidate) → Within d cs → (d.key ≡ c.key) × Within d candidates)
        → IsSupplied candidates (insert c.key cs registry)
    pushed cs good = record {
      keyed = λ k ds e d v. elim (get-insert_cases c.key k cs registry e) [
        | inl (at, same) ↦ (good d (subst (Within d) (sym same) v)).0 ∙ sym at
        | inr old ↦ h.keyed k ds old d v
      ];
      supplied = λ k ds e d v. elim (get-insert_cases c.key k cs registry e) [
        | inl (at, same) ↦ (good d (subst (Within d) (sym same) v)).1
        | inr old ↦ h.supplied k ds old d v
      ];
    }

    only : (d : Candidate) → Within d (c ∷ []) → (d.key ≡ c.key) × Within d candidates
    only d (inl e) = (ap (λ (x : Candidate). x.key) (sym e), subst (λ x. Within x candidates) e w)
    only d (inr v) = absurd v

    by_entry :
        (o : Option (List Candidate))
        → get c.key registry ≡ o
        → IsSupplied candidates (elim o [
          | none ↦ insert c.key (c ∷ []) registry
          | some cs ↦ insert c.key (cs ++ c ∷ []) registry
        ])
    by_entry none e = pushed (c ∷ []) only
    by_entry (some cs) e = pushed (cs ++ c ∷ []) (λ d v.
        elim (Within-append_cases d cs (c ∷ []) v) [
          | inl old ↦ (h.keyed c.key cs e d old, h.supplied c.key cs e d old)
          | inr new ↦ only d new
        ])

build_registry-IsSupplied :
    (candidates cs : List Candidate) (registry : Registry)
    → ((c : Candidate) → Within c cs → Within c candidates)
    → IsSupplied candidates registry
    → IsSupplied candidates (build_registry cs registry)
unfolding build_registry
build_registry-IsSupplied candidates [] registry w h = h
build_registry-IsSupplied candidates (c ∷ cs) registry w h =
    build_registry-IsSupplied candidates cs (push_candidate c registry) (λ d v. w d (inr v))
      (push_candidate-IsSupplied candidates c registry (w c (inl refl)) h)

nothing-IsSupplied : (candidates : List Candidate) → IsSupplied candidates []
unfolding get
nothing-IsSupplied candidates = record { keyed = λ k cs e c w. cc; supplied = λ k cs e c w. cc }

pub registry-IsSupplied :
    (request : Request) (candidates : List Candidate)
    → IsSupplied candidates (context_of request (sort_by compare_candidates candidates)).registry
unfolding context_of
registry-IsSupplied request candidates =
    build_registry-IsSupplied candidates (sort_by compare_candidates candidates) []
      (λ c w. Within-sort_by compare_candidates c candidates w) (nothing-IsSupplied candidates)

-- the roots are selected one after the other
select_roots-Grows :
    (ctx : Context) (keyed : IsKeyed ctx.registry) (rs : List (ℕ × Requirement)) (s t : Selection)
    (before after : List PackageKey)
    → select_roots ctx rs (s, before) ≡ ok (t, after)
    → Grows ctx s t × ((i : ℕ) (r : Requirement) → Within (i, r) rs → Meets t r)
unfolding select_roots
select_roots-Grows ctx keyed [] s t before after h =
    (subst (Grows ctx s) (same_selection h) (Grows-refl ctx s), λ i r w. absurd w)
  where
    same_selection :
        ◌≡◌ {A = Result ResolutionError (Selection × List PackageKey)}
          (ok (s, before))
          (ok (t, after))
        → s ≡ t
    same_selection e = cc
select_roots-Grows ctx keyed ((j, q) ∷ rest) s t before after h =
    let (u, first, others) = >>=-eq-ok (select_requirement ctx q (Origin.root j) s) _ h in
    let (grown, met) = select_requirement-Grows ctx keyed q (Origin.root j) s u first in
    let (further, all_met) = select_roots-Grows ctx keyed rest u t _ after others in
    (
      Grows-trans ctx grown further,
      λ i r w. elim w [
        | inl e ↦ subst (λ (p : ℕ × Requirement). Meets t p.1) e (Meets-keeps ctx q further met)
        | inr v ↦ all_met i r v
      ],
    )

pub resolved_packages-Within :
    (selected : TreeMap PackageKey Selected) (k : PackageKey) (e : Selected)
    → get k selected ≡ some e
    → Within (resolved_package e) (resolved_packages selected)
unfolding resolved_packages
resolved_packages-Within selected k e h =
    sort_by-Within (λ a b. compare_keys a.candidate.key b.candidate.key) (resolved_package e)
      (map (λ ((_, s) : PackageKey × Selected). resolved_package s) selected)
      (Within-map (λ ((_, s) : PackageKey × Selected). resolved_package s) (k, e) selected
        (get-Within k e selected h))

pub Within-resolved_packages :
    (selected : TreeMap PackageKey Selected) (p : ResolvedPackage)
    → IsAscending selected
    → Within p (resolved_packages selected)
    → (k : PackageKey) × (e : Selected) × (get k selected ≡ some e) × (resolved_package e ≡ p)
unfolding resolved_packages
Within-resolved_packages selected p ascends w =
    let ((k, e), inside, is) =
      Within-map_inverse (λ ((_, s) : PackageKey × Selected). resolved_package s) p selected
        (Within-sort_by (λ a b. compare_keys a.candidate.key b.candidate.key) p
          (map (λ ((_, s) : PackageKey × Selected). resolved_package s) selected) w) in
    (k, e, Within-get k e selected ascends inside, is)

nothing_selected :
    (ctx : Context) (keyed : IsKeyed ctx.registry) → IsSound ctx keyed empty_selection
unfolding get
nothing_selected ctx keyed = record { chosen = λ k e x. cc; closed = λ k e x. cc }

-- what the loops of a resolution have selected
pub record IsSettled (request : Request) (candidates : List Candidate) (g : ResolutionGraph)
    (x : IsResolved request candidates g) : Type 0 where
  pub sound :
      IsSound
        (context_of request (sort_by compare_candidates candidates))
        (registry-IsSupplied request candidates).keyed
        x.end
  pub empty : x.end.queue ≡ []
  pub ascends : IsAscending x.end.selected
  pub roots_met : (i : ℕ) (r : Requirement) → Within (i, r) (reverse x.requirements) → Meets x.end r

pub resolved-IsSettled :
    (request : Request) (candidates : List Candidate) (g : ResolutionGraph)
    (x : IsResolved request candidates g)
    → IsSettled request candidates g x
resolved-IsSettled request candidates g x =
    let ctx = context_of request (sort_by compare_candidates candidates) in
    let from = registry-IsSupplied request candidates in
    let (grown, roots_met) =
      select_roots-Grows ctx from.keyed (reverse x.requirements) empty_selection x.start [] x.roots
        x.selected in
    let start_sound =
      Grows-IsSound ctx from.keyed empty_selection x.start grown
        (nothing_selected ctx from.keyed) in
    let (sound, empty, keeps) =
      drain-IsSound ctx from.keyed _ x.start x.end x.drained start_sound in
    record {
      sound = sound;
      empty = empty;
      ascends =
          drain-IsAscending ctx from.keyed _ x.start x.end x.drained start_sound (grown.ascends tt);
      roots_met = λ i r w.
          let m = roots_met i r w in
          record { entry = m.entry; holds = keeps r.key m.entry m.holds; matches = m.matches };
    }

-- and two packages of the graph with one key are one package
pub resolve_unique :
    (request : Request) (candidates : List Candidate) (g : ResolutionGraph)
    → resolve request candidates ≡ ok g
    → (p q : ResolvedPackage) → Within p g.packages
    → Within q g.packages
    → p.candidate.key ≡ q.candidate.key
    → p ≡ q
unfolding resolved_package
resolve_unique request candidates g h p q inside_p inside_q same =
    let x = resolve-IsResolved request candidates g h in
    let f = finish_graph-IsFinished request x.roots x.end g x.finished in
    let e = resolved-IsSettled request candidates g x in
    let (k, a, at_k, is_p) =
      Within-resolved_packages x.end.selected p e.ascends (subst (Within p) f.packages inside_p) in
    let (j, b, at_j, is_q) =
      Within-resolved_packages x.end.selected q e.ascends (subst (Within q) f.packages inside_q) in
    let key_p = (e.sound.chosen k a at_k).keyed in let key_q = (e.sound.chosen j b at_j).keyed in cc
