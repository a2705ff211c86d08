-- ===== src/Lock/Graph/Chains.antt =====
-- What validate_graph guarantees of the packages that it accepts.
use leanbun.Base.{
  ℕ, zero, suc, ◌+◌, ◌≤◌, ◌<◌, max, not, List, [], ◌∷◌, some, ◌≡◌, refl, sym, ap, ◌∙◌, inl, inr,
  subst, All-Within, Within, length, get_elem?, arith, ok, ◌>>=◌, >>=-eq-ok, reject_if, ◌⊎◌,
}
use leanbun.Base.TreeMap.{get, insert, get-insert_cases}
use leanbun.Lock.Model.{PackageKey, key_ord, LockedPackage, LockErrorKind}
use leanbun.Lock.Graph.{
  Indices, Visits, index_from, dependencies_at, has_dependencies, visit_all, unvisited,
  validate_graph,
}
use leanbun.Lock.Graph.Ranks.{depth_of, deepest, IsRanked, visit_all-AllRanked}

-- package `i` depends on package `j`
pub record DependsOn (packages : List LockedPackage) (i j : ℕ) : Type 0 where
  pub source : LockedPackage
  pub target : LockedPackage
  pub at_source : get_elem? packages i ≡ some source
  pub at_target : get_elem? packages j ≡ some target
  pub edge : Within target.key source.dependencies

-- a chain of so many packages, each of which depends on the next
pub data Chain (packages : List LockedPackage) : ℕ → ℕ → Type 0 where
  single : {i : ℕ} {p : LockedPackage} → get_elem? packages i ≡ some p → Chain packages i 1
  onward : {i j n : ℕ} → DependsOn packages i j → Chain packages j n → Chain packages i (suc n)

pub length_get_elem :
    {A : Type 0} (xs : List A) (i : ℕ) (a : A) → get_elem? xs i ≡ some a → i < length xs
length_get_elem [] i a h = cc
length_get_elem (x ∷ xs) zero a h = omega arith
length_get_elem (x ∷ xs) (suc i) a h = omega (arith, length_get_elem xs i a h)

-- an index is that of a package with the key
pub index_from-key :
    (n : ℕ) (packages : List LockedPackage) (m : Indices) (k : PackageKey) (j : ℕ)
    → get k (index_from n packages m) ≡ some j
    → (get k m ≡ some j)
      ⊎ ((i : ℕ) × (p : LockedPackage) × (j ≡ n + i)
          × (get_elem? packages i ≡ some p)
          × (p.key ≡ k))
unfolding index_from
index_from-key n [] m k j h = inl h
index_from-key n (p ∷ ps) m k j h = elim (index_from-key (n + 1) ps (insert p.key n m) k j h) [
  | inl old ↦ elim (get-insert_cases p.key k n m old) [
    | inl (at, is) ↦ inr (0, p, omega (arith, is), refl, sym at)
    | inr older ↦ inl older
  ]
  | inr (i, q, e, at, same) ↦ inr (suc i, q, omega (arith, e), at, same)
]

dependencies_at_lem :
    (packages : List LockedPackage) (i : ℕ) (p : LockedPackage)
    → get_elem? packages i ≡ some p
    → dependencies_at packages i ≡ p.dependencies
unfolding dependencies_at
dependencies_at_lem packages i p h = rw (h, dependencies_at)

start-le-deepest :
    (indices : Indices) (depths : ℕ → ℕ) (depth : ℕ) (ds : List PackageKey)
    → depth ≤ deepest indices depths depth ds
unfolding deepest
start-le-deepest indices depths depth [] = omega arith
start-le-deepest indices depths depth (d ∷ ds) =
    omega
      (arith, start-le-deepest indices depths (max depth (1 + depth_of (get d indices) depths)) ds)

-- a dependency is less deep
below_deepest :
    (indices : Indices) (depths : ℕ → ℕ) (depth : ℕ) (ds : List PackageKey) (d : PackageKey) (j : ℕ)
    → Within d ds
    → get d indices ≡ some j
    → depths j < deepest indices depths depth ds
unfolding deepest
below_deepest indices depths depth [] d j w h = absurd w
below_deepest indices depths depth (x ∷ ds) d j (inl e) h =
    let found : depth_of (get x indices) depths ≡ depths j =
      ap (λ k. depth_of (get k indices) depths) e ∙ ap (λ o. depth_of o depths) h in
    omega (
      arith,
      found,
      start-le-deepest indices depths (max depth (1 + depth_of (get x indices) depths)) ds,
    )
below_deepest indices depths depth (x ∷ ds) d j (inr w) h =
    below_deepest indices depths (max depth (1 + depth_of (get x indices) depths)) ds d j w h

-- no two packages have one key
abbrev pub HasDistinctKeys : List LockedPackage → Type 0
HasDistinctKeys packages =
    (i j : ℕ) (p q : LockedPackage)
    → get_elem? packages i ≡ some p
    → get_elem? packages j ≡ some q
    → p.key ≡ q.key
    → i ≡ j

module _ (packages : List LockedPackage) (u : Unit {0})
    (accepted : validate_graph packages ≡ ok u) where
  abbrev indices : Indices
  indices = index_from 0 packages []

  all_settled :
      (t : Visits) × ((i : ℕ) (p : LockedPackage)
        → get_elem? packages i ≡ some p
        → IsRanked packages indices t i)
  unfolding validate_graph
  all_settled =
      let (v, tested, visited) =
        >>=-eq-ok
          (reject_if (not (has_dependencies indices packages)) LockErrorKind.missing_package)
          (λ _. visit_all (length packages) packages indices 0 unvisited >>= λ _. ok tt) accepted in
      let (t, looped, done) =
        >>=-eq-ok (visit_all (length packages) packages indices 0 unvisited) (λ _. ok tt) visited in
      let (ranked, keeps, covered) =
        visit_all-AllRanked packages indices (length packages) 0 unvisited t looped
          (λ i h. absurd (omega (arith, h))) in
      (
        t,
        λ i p at.
            ranked i (covered i (omega arith) (omega (arith, length_get_elem packages i p at))),
      )

  -- the package of a dependency
  find_dependency :
      (i : ℕ) (p : LockedPackage) (d : PackageKey)
      → get_elem? packages i ≡ some p
      → Within d p.dependencies
      → (j : ℕ) × (q : LockedPackage) × (get d indices ≡ some j)
        × (get_elem? packages j ≡ some q)
        × (q.key ≡ d)
  unfolding get
  find_dependency i p d at w =
      let (t, ranks) = all_settled in
      let each = (ranks i p at).settled in
      let (j, found, settled) =
        All-Within _ (dependencies_at packages i) each d
          (subst (Within d) (sym (dependencies_at_lem packages i p at)) w) in
      elim (index_from-key 0 packages [] d j found) [
        | inl none_there ↦ cc
        | inr (k, q, e, here, key) ↦
            (j, q, found, subst (λ n. get_elem? packages n ≡ some q) (omega (arith, e)) here, key)
      ]

  Chain-depth :
      (t : Visits)
      → ((i : ℕ) (p : LockedPackage)
          → get_elem? packages i ≡ some p
          → IsRanked packages indices t i)
      → HasDistinctKeys packages
      → {i n : ℕ} → Chain packages i n
      → n ≤ t.depths i
  Chain-depth t ranks distinct {i} (single {p = p} at) = omega (
    arith,
    (ranks i p at).exact,
    start-le-deepest indices t.depths 1 (dependencies_at packages i),
  )
  Chain-depth t ranks distinct {i} (onward {j = j} d further) =
      let (k, q, found, here, key) = find_dependency i d.source d.target.key d.at_source d.edge in
      let same : k ≡ j = distinct k j q d.target here d.at_target key in
      let below =
        below_deepest indices t.depths 1 (dependencies_at packages i) d.target.key j
          (subst (Within d.target.key) (sym (dependencies_at_lem packages i d.source d.at_source))
            d.edge)
          (subst (λ m. get d.target.key indices ≡ some m) same found) in
      omega
        (arith, (ranks i d.source d.at_source).exact, below, Chain-depth t ranks distinct further)

  -- In a graph of packages with distinct keys that validate_graph accepts, no chain of dependencies
  -- has more than 128 packages.
  pub validate_graph-Chain : {i n : ℕ} → HasDistinctKeys packages → Chain packages i n → n ≤ 128
  validate_graph-Chain {i} distinct chain =
      let (t, ranks) = all_settled in
      let (p, at) = chain_start chain in
      omega (arith, Chain-depth t ranks distinct chain, (ranks i p at).small)
    where
      chain_start :
          {i n : ℕ} → Chain packages i n → (p : LockedPackage) × (get_elem? packages i ≡ some p)
      chain_start (single {p = p} at) = (p, at)
      chain_start (onward d further) = (d.source, d.at_source)

  -- In a graph that validate_graph accepts, each dependency of a package is the key of a package.
  pub validate_graph_closed :
      (i : ℕ) (p : LockedPackage) (d : PackageKey)
      → get_elem? packages i ≡ some p
      → Within d p.dependencies
      → (j : ℕ) × (q : LockedPackage) × (get_elem? packages j ≡ some q) × (q.key ≡ d)
  validate_graph_closed i p d at w =
      let (j, q, found, here, key) = find_dependency i p d at w in (j, q, here, key)
