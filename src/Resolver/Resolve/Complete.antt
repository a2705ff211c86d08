-- ===== src/Resolver/Resolve/Complete.antt =====
-- resolve_lean_dependencies_v1 and the requirements of the root and of the packages.
use leanbun.Base.{
  ℕ, ◌+◌, true, List, [], ◌∷◌, ◌≡◌, sym, ap, subst, ◌⊎◌, inl, inr, Within, ok, >>=-eq-ok, Result,
  sort_by,
}
use leanbun.Lock.Model.{PackageKey, key_ord}
use leanbun.Resolver.Model.{
  ResolutionError, SourceRequest, Candidate, Requirement, ResolvedPackage,
  request_matches_candidate,
}
use leanbun.Resolver.Selecting.{Context, Selection}
use leanbun.Resolver.Selecting.Step.{IsKeyed, Meets}
use leanbun.Resolver.Selecting.Closure.{IsSound, Within-reverse, MeetsAll}
use leanbun.Resolver.Resolve.{
  Request, ResolutionGraph, RootDependency, resolve, resolved_package, compare_candidates,
  context_of, root_requirements, from_root,
}
use leanbun.Resolver.Resolve.Kept.{resolve-IsResolved, IsFinished, finish_graph-IsFinished}
use leanbun.Resolver.Resolve.Chosen.{
  resolved_packages-Within, Within-resolved_packages, resolved-IsSettled, registry-IsSupplied,
}

root_requirements-Within :
    (n : ℕ) (ds : List RootDependency) (rs : List (ℕ × Requirement)) (d : RootDependency)
    → root_requirements n ds ≡ ok rs
    → Within d ds
    → (i : ℕ) × (source : SourceRequest) × (from_root d.version d.source ≡ ok source)
      × Within (i, record { key = d.key; source = source }) rs
unfolding root_requirements
root_requirements-Within n [] rs d h w = absurd w
root_requirements-Within n (x ∷ ds) rs d h w =
    let (source, read, more) = >>=-eq-ok (from_root x.version x.source) _ h in
    let (others, rest, is) = >>=-eq-ok (root_requirements (n + 1) ds) _ more in
    elim w [
      | inl e ↦ (
        n,
        source,
        subst (λ (y : RootDependency). from_root y.version y.source ≡ ok source) e read,
        subst (Within (n, record { key = d.key; source = source })) (list_is _ rs is)
            (inl (ap (λ (y : RootDependency). (n, record { key = y.key; source = source })) e)),
      )
      | inr v ↦
          let (i, s, from, inside) = root_requirements-Within (n + 1) ds others d rest v in
          (
            i,
            s,
            from,
            subst (Within (i, record { key = d.key; source = s })) (list_is _ rs is) (inr inside),
          )
    ]
  where
    list_is :
        (a b : List (ℕ × Requirement))
        → ◌≡◌ {A = Result ResolutionError (List (ℕ × Requirement))} (ok a) (ok b)
        → a ≡ b
    list_is a b e = cc

-- a package of the graph that stands for the key and matches the request
pub record IsAnswered (g : ResolutionGraph) (key : PackageKey) (source : SourceRequest)
    : Type 0 where
  pub answer : ResolvedPackage
  pub inside : Within answer g.packages
  pub keyed : answer.candidate.key ≡ key
  pub matches : request_matches_candidate source answer.candidate ≡ true

-- the graph answers the root's requirements and those of its packages, from the candidates supplied
pub record IsComplete (request : Request) (candidates : List Candidate) (g : ResolutionGraph)
    : Type 0 where
  pub roots :
      (d : RootDependency)
      → Within d request.root.dependencies
      → (source : SourceRequest) × (from_root d.version d.source ≡ ok source)
        × IsAnswered g d.key source
  pub closed :
      (p : ResolvedPackage) (r : Requirement)
      → Within p g.packages
      → Within r p.candidate.dependencies
      → IsAnswered g r.key r.source
  pub supplied : (p : ResolvedPackage) → Within p g.packages → Within p.candidate candidates

-- what is met by the selection is answered in the graph
answered :
    (ctx : Context) (keyed : IsKeyed ctx.registry) (request : Request) (s : Selection)
    (g : ResolutionGraph) (r : Requirement)
    → IsFinished request s g
    → IsSound ctx keyed s
    → Meets s r
    → IsAnswered g r.key r.source
unfolding resolved_package
answered ctx keyed request s g r f sound m = record {
  answer = resolved_package m.entry;
  inside =
      subst (Within (resolved_package m.entry)) (sym f.packages)
        (resolved_packages-Within s.selected r.key m.entry m.holds);
  keyed = (sound.chosen r.key m.entry m.holds).keyed;
  matches = m.matches;
}

-- The graph that a resolution returns has a package for each dependency of the root declaration and for
-- each requirement of each of its packages, with the key that is required and a candidate that matches
-- the source that is required; the candidates of its packages are among those supplied.
pub resolve-IsComplete :
    (request : Request) (candidates : List Candidate) (g : ResolutionGraph)
    → resolve request candidates ≡ ok g
    → IsComplete request candidates g
unfolding resolved_package
resolve-IsComplete request candidates g h =
    let x = resolve-IsResolved request candidates g h in
    let f = finish_graph-IsFinished request x.roots x.end g x.finished in
    let ctx = context_of request (sort_by compare_candidates candidates) in
    let from = registry-IsSupplied request candidates in
    let e = resolved-IsSettled request candidates g x in
    record {
      roots = λ d w.
          let (i, source, read, inside) =
            root_requirements-Within 0 request.root.dependencies x.requirements d x.root_ok w in
          let r : Requirement = record { key = d.key; source = source } in
          let met = e.roots_met i r (Within-reverse (i, r) x.requirements inside) in
          (source, read, answered ctx from.keyed request x.end g r f e.sound met);
      closed = λ p r w v.
          let (k, entry, found, is) =
            Within-resolved_packages x.end.selected p e.ascends (subst (Within p) f.packages w) in
          let dependency : Within r entry.candidate.dependencies =
            subst (λ (q : ResolvedPackage). Within r q.candidate.dependencies) (sym is) v in
          elim (subst (λ q. Within k q ⊎ MeetsAll x.end entry.candidate.dependencies) e.empty
            (e.sound.closed k entry found)) [
              | inl waits ↦ absurd waits
              | inr met ↦ answered ctx from.keyed request x.end g r f e.sound (met r dependency)
            ];
      supplied = λ p w.
          let (k, entry, found, is) =
            Within-resolved_packages x.end.selected p e.ascends (subst (Within p) f.packages w) in
          let (cs, listed, inside) = (e.sound.chosen k entry found).supplied in
          subst (λ (q : ResolvedPackage). Within q.candidate candidates) is
            (from.supplied k cs listed entry.candidate inside);
    }
