-- ===== src/Resolver/Resolve/Acyclic.antt =====
-- The chains of dependencies in the graph of resolve_lean_dependencies_v1.
use leanbun.Base.{List, [], ◌∷◌, Option, none, some, ◌≡◌, sym, ap, ◌∙◌, subst, inl, inr, Within, ok}
use leanbun.Base.TreeMap.{get, insert, get-insert_self, get-insert_ne, get-insert_cases}
use leanbun.Base.Entries.{get-Within}
use leanbun.Lock.Model.{PackageKey, key_equal, key_ord}
use leanbun.Resolver.Model.{Candidate, ResolvedPackage}
use leanbun.Resolver.Cycles.{Packages, package_map, map_keys, validate_cycles_and_depth}
use leanbun.Resolver.Cycles.Settled.{Settled, settled, validate_cycles-Settled}
use leanbun.Resolver.Impact.Kept.{package_map-Within}
use leanbun.Resolver.Resolve.{Request, ResolutionGraph, resolve}
use leanbun.Resolver.Resolve.Kept.{resolve-IsResolved, finish_graph-IsFinished}
use leanbun.Resolver.Resolve.Chosen.{resolve_unique}

-- a package of the list with the key, and one of its dependencies
pub record DependsOn (packages : List ResolvedPackage) (k c : PackageKey) : Type 0 where
  pub member : ResolvedPackage
  pub inside : Within member packages
  pub keyed : member.candidate.key ≡ k
  pub depends : Within c member.dependencies

-- a chain of one or more dependencies
pub data Leads (packages : List ResolvedPackage) : PackageKey → PackageKey → Type 0 where
  direct : {k c : PackageKey} → DependsOn packages k c → Leads packages k c
  through : {k d c : PackageKey} → DependsOn packages k d → Leads packages d c → Leads packages k c

Leads-append :
    {packages : List ResolvedPackage} {k d c : PackageKey}
    → Leads packages k d
    → DependsOn packages d c
    → Leads packages k c
Leads-append (direct x) y = through x (direct y)
Leads-append (through x further) y = through x (Leads-append further y)

map_keys-Within :
    (m : Packages) (k : PackageKey) (p : ResolvedPackage) → Within (k, p) m → Within k (map_keys m)
unfolding map_keys
map_keys-Within [] k p w = absurd w
map_keys-Within ((j, q) ∷ m) k p (inl e) = inl (ap (λ (x : PackageKey × ResolvedPackage). x.0) e)
map_keys-Within ((j, q) ∷ m) k p (inr w) = inr (map_keys-Within m k p w)

-- the map keeps a key that it has
package_map-keeps :
    (ps : List ResolvedPackage) (m : Packages) (k : PackageKey) (p : ResolvedPackage)
    → get k m ≡ some p
    → (q : ResolvedPackage) × (get k (package_map ps m) ≡ some q)
unfolding package_map
package_map-keeps [] m k p e = (p, e)
package_map-keeps (x ∷ ps) m k p e = elim (key_equal.discrete k x.candidate.key) [
  | yes same ↦ package_map-keeps ps (insert x.candidate.key x m) k x (
      subst (λ j. get j (insert x.candidate.key x m) ≡ some x) (sym same)
        (get-insert_self x.candidate.key x m))
  | no other ↦
      package_map-keeps ps (insert x.candidate.key x m) k p
        (get-insert_ne x.candidate.key k x m other ∙ e)
]

package_map-has :
    (ps : List ResolvedPackage) (m : Packages) (p : ResolvedPackage)
    → Within p ps
    → (q : ResolvedPackage) × (get p.candidate.key (package_map ps m) ≡ some q)
unfolding package_map
package_map-has [] m p w = absurd w
package_map-has (x ∷ ps) m p (inl e) =
    package_map-keeps ps (insert x.candidate.key x m) p.candidate.key x (
      subst (λ (y : ResolvedPackage). get y.candidate.key (insert x.candidate.key x m) ≡ some x) e
        (get-insert_self x.candidate.key x m))
package_map-has (x ∷ ps) m p (inr w) = package_map-has ps (insert x.candidate.key x m) p w

-- an entry of the map has the key of its package
package_map-keyed :
    (ps : List ResolvedPackage) (m : Packages) (k : PackageKey) (q : ResolvedPackage)
    → ((j : PackageKey) (r : ResolvedPackage) → get j m ≡ some r → r.candidate.key ≡ j)
    → get k (package_map ps m) ≡ some q
    → q.candidate.key ≡ k
unfolding package_map
package_map-keyed [] m k q h e = h k q e
package_map-keyed (p ∷ ps) m k q h e =
    package_map-keyed ps (insert p.candidate.key p m) k q
      (λ j r f. elim (get-insert_cases p.candidate.key j p m f) [
        | inl (same, is) ↦ ap (λ (x : ResolvedPackage). x.candidate.key) (sym is) ∙ sym same
        | inr old ↦ h j r old
      ])
      e

-- what is settled in the map of the packages does not lead back to itself
not_to_itself :
    (packages : List ResolvedPackage)
    → ((k : PackageKey) (p q : ResolvedPackage)
        → Within p packages
        → p.candidate.key ≡ k
        → get k (package_map packages []) ≡ some q
        → q ≡ p)
    → (k : PackageKey) → Settled (package_map packages []) k
    → Leads packages k k
    → ⊥
not_to_itself packages listed k (settled below) cycle =
    let (d, x, back) = rotate cycle in
    let (q, at) = package_map-has packages [] x.member x.inside in
    let at_k = subst (λ j. get j (package_map packages []) ≡ some q) x.keyed at in
    not_to_itself packages listed d
      (below q d at_k (
        subst (λ (r : ResolvedPackage). Within d r.dependencies)
          (sym (listed k x.member q x.inside x.keyed at_k)) x.depends))
      back
  where
    rotate :
        Leads packages k k → (d : PackageKey) × (x : DependsOn packages k d) × Leads packages d d
    rotate (direct x) = (k, x, direct x)
    rotate (through {d} x further) = (d, x, Leads-append further x)

nothing : (j : PackageKey) (q : ResolvedPackage) → get j [] ≡ some q → q.candidate.key ≡ j
unfolding get
nothing j q e = cc

-- In the graph that a resolution returns no chain of dependencies leads from a package back to it.
pub resolve-IsAcyclic :
    (request : Request) (candidates : List Candidate) (g : ResolutionGraph)
    → resolve request candidates ≡ ok g
    → (k : PackageKey) → ¬ Leads g.packages k k
unfolding get
resolve-IsAcyclic request candidates g h k cycle =
    let x = resolve-IsResolved request candidates g h in
    let f = finish_graph-IsFinished request x.roots x.end g x.finished in
    let accepted = subst (λ ps. validate_cycles_and_depth ps ≡ ok tt) (sym f.packages) f.acyclic in
    let (q, at) = start cycle in
    not_to_itself g.packages (listed) k
      (validate_cycles-Settled g.packages accepted k (
        map_keys-Within (package_map g.packages []) k q
          (get-Within k q (package_map g.packages []) at)))
      cycle
  where
    start :
        Leads g.packages k k → (q : ResolvedPackage) × (get k (package_map g.packages []) ≡ some q)
    start (direct x) =
        subst (λ j. (q : ResolvedPackage) × (get j (package_map g.packages []) ≡ some q)) x.keyed
          (package_map-has g.packages [] x.member x.inside)
    start (through x further) =
        subst (λ j. (q : ResolvedPackage) × (get j (package_map g.packages []) ≡ some q)) x.keyed
          (package_map-has g.packages [] x.member x.inside)

    empty : (q : ResolvedPackage) → ◌≡◌ {A = Option ResolvedPackage} none (some q) → ⊥
    empty q e = cc

    listed :
        (j : PackageKey) (p q : ResolvedPackage)
        → Within p g.packages
        → p.candidate.key ≡ j
        → get j (package_map g.packages []) ≡ some q
        → q ≡ p
    listed j p q w keyed at = elim (package_map-Within g.packages [] j q at) [
      | inl inside ↦
          resolve_unique request candidates g h q p inside w
            (package_map-keyed g.packages [] j q nothing at ∙ sym keyed)
      | inr never ↦ absurd (empty q never)
    ]
