-- ===== src/Lock/Graph/Ending.antt =====
-- The fuel of visit_graph: each package is entered once at most.
use leanbun.Base.{
  ℕ, zero, suc, ◌+◌, ◌≤◌, ◌<◌, max, Bool, true, false, not, ◌&&◌, List, [], ◌∷◌, Option, none, some,
  ◌≡◌, ◌≢◌, refl, sym, ap, ◌∙◌, ◌⊎◌, inl, inr, subst, length, eqb, ltb, Bool-cases, arith, ok, err,
  ◌>>=◌, reject_if, ℕ_discrete,
}
use leanbun.Base.TreeMap.{get}
use leanbun.Lock.Model.{PackageKey, key_ord, LockedPackage, LockErrorKind}
use leanbun.Lock.Fields.{Made}
use leanbun.Lock.Graph.{
  Indices, Visits, update_at, dependencies_at, visit_dependencies, settle, visit_graph, visit_all,
  index_from, has_dependencies, unvisited, validate_graph,
}
use leanbun.Lock.Graph.Chains.{index_from-key, length_get_elem}
use leanbun.Lock.Graph.Ranks.{update_at_self, update_at-ne}

-- neither entered nor settled
abbrev is_open : ℕ → Bool
is_open state = not (eqb state 1) && not (eqb state 2)

abbrev weight : Bool → ℕ
weight true = 1
weight false = 0

-- the packages below an index that are open
open_below : ℕ → (ℕ → ℕ) → ℕ
open_below zero states = 0
open_below (suc n) states = weight (is_open (states n)) + open_below n states

-- what is visited stays visited
abbrev Visits-le : (ℕ → ℕ) → (ℕ → ℕ) → Type 0
Visits-le f g = (i : ℕ) → is_open (f i) ≡ false → is_open (g i) ≡ false

open_below_mono : (n : ℕ) (f g : ℕ → ℕ) → Visits-le f g → open_below n g ≤ open_below n f
unfolding open_below
open_below_mono zero f g h = omega arith
open_below_mono (suc n) f g h = elim (Bool-cases (is_open (f n))) [
  | inl o ↦ omega (arith, open_below_mono n f g h, weight_bound (is_open (g n)), ap weight o)
  | inr c ↦ omega (arith, open_below_mono n f g h, ap weight (h n c))
]
  where
    weight_bound : (b : Bool) → weight b ≤ 1
    weight_bound true = omega arith
    weight_bound false = omega arith

enter-le : (f : ℕ → ℕ) (i v : ℕ) → is_open v ≡ false → Visits-le f (update_at f i v)
enter-le f i v h j c = elim (ℕ_discrete j i) [
  | yes same ↦
      subst (λ k. is_open (update_at f i v k) ≡ false) (sym same)
        (ap is_open (update_at_self f i v) ∙ h)
  | no other ↦ ap is_open (update_at-ne f i v j other) ∙ c
]

-- entering an open package
open_below-enter :
    (n : ℕ) (f : ℕ → ℕ) (i : ℕ)
    → i < n
    → is_open (f i) ≡ true
    → suc (open_below n (update_at f i 1)) ≤ open_below n f
unfolding open_below
open_below-enter zero f i h o = absurd (omega arith)
open_below-enter (suc n) f i h o = elim (ℕ_discrete n i) [
  | yes same ↦
      let at_f : weight (is_open (f n)) ≡ 1 = ap (λ k. weight (is_open (f k))) same ∙ ap weight o in
      let at_g : weight (is_open (update_at f i 1 n)) ≡ 0 =
        ap (λ k. weight (is_open (update_at f i 1 k))) same
        ∙ ap (λ k. weight (is_open k)) (update_at_self f i 1) in
      omega (arith, at_f, at_g, open_below_mono n f (update_at f i 1) (enter-le f i 1 refl))
  | no other ↦
      let same : weight (is_open (update_at f i 1 n)) ≡ weight (is_open (f n)) =
        ap (λ k. weight (is_open k)) (update_at-ne f i 1 n other) in
      omega (arith, same, open_below-enter n f i (omega arith) o)
]

-- a result after which no more is open, or an error of the program
Ends : Visits → Made (ℕ × Visits) → Type 0
Ends s (ok r) = Visits-le s.states r.1.states
Ends s (err e) = e ≢ LockErrorKind.out_of_fuel

Ends-bind :
    (s t : Visits) (m : Made (ℕ × Visits)) (f : ℕ × Visits → Made (ℕ × Visits))
    → Visits-le s.states t.states
    → Ends t m
    → ((r : ℕ × Visits) → Visits-le t.states r.1.states → Ends r.1 (f r))
    → Ends s (m >>= f)
unfolding Ends
Ends-bind s t (err e) f le h next = h
Ends-bind s t (ok r) f le h next = weaken (f r) (next r h)
  where
    weaken : (m : Made (ℕ × Visits)) → Ends r.1 m → Ends s m
    weaken (ok q) k = λ i c. k i (h i (le i c))
    weaken (err e) k = k

-- every index of the map is that of a package
abbrev IsInRange : ℕ → Indices → Type 0
IsInRange n indices = (k : PackageKey) (j : ℕ) → get k indices ≡ some j → j < n

module _ (packages : List LockedPackage) (indices : Indices)
    (in_range : IsInRange (length packages) indices) where
  abbrev AllEnd : ℕ → (ℕ → Visits → Made (ℕ × Visits)) → Type 0
  AllEnd fuel visit =
      (i : ℕ) (s : Visits)
      → i < length packages
      → open_below (length packages) s.states < fuel
      → Ends s (visit i s)

  visit_dependencies-Ends :
      (fuel : ℕ) (visit : ℕ → Visits → Made (ℕ × Visits)) (ds : List PackageKey) (depth : ℕ)
      (s : Visits)
      → AllEnd fuel visit
      → open_below (length packages) s.states < fuel
      → Ends s (visit_dependencies visit indices ds depth s)
  unfolding visit_dependencies
  visit_dependencies-Ends fuel visit [] depth s end few = unfold Ends in (λ i c. c)
  visit_dependencies-Ends fuel visit (d ∷ ds) depth s end few =
      by_found (get d indices) refl (λ r le.
        visit_dependencies-Ends fuel visit ds (max depth (1 + r.0)) r.1 end
          (omega (arith, few, open_below_mono (length packages) s.states r.1.states le)))
    where
      by_found :
          (o : Option ℕ)
          → get d indices ≡ o
          → ((r : ℕ × Visits)
              → Visits-le s.states r.1.states
              → Ends r.1 (visit_dependencies visit indices ds (max depth (1 + r.0)) r.1))
          → Ends s (elim o [
            | none ↦ err LockErrorKind.missing_package
            | some next ↦
                visit next s >>= λ r. visit_dependencies visit indices ds (max depth (1 + r.0)) r.1
          ])
      by_found none e ih = unfold Ends in (λ x. cc)
      by_found (some next) e ih =
          Ends-bind s s (visit next s)
            (λ r. visit_dependencies visit indices ds (max depth (1 + r.0)) r.1) (λ i c. c)
            (end next s (in_range d next e) few) ih

  settle-Ends : (index : ℕ) (r : ℕ × Visits) → Ends r.1 (settle index r)
  unfolding settle Ends
  settle-Ends index (depth, v) = elim (Bool-cases (ltb 128 depth)) [
    | inl deep ↦ rw deep (λ x. cc)
    | inr shallow ↦ rw shallow (enter-le v.states index 2 refl)
  ]

  visit_graph-Ends :
      (fuel index : ℕ) (s : Visits)
      → index < length packages
      → open_below (length packages) s.states < fuel
      → Ends s (visit_graph fuel packages indices index s)
  unfolding visit_graph
  visit_graph-Ends zero index s h few = absurd (omega arith)
  visit_graph-Ends (suc fuel) index s h few = elim (Bool-cases (eqb (s.states index) 1)) [
    | inl entered ↦ rw entered (unfold Ends in (λ x. cc))
    | inr not_entered ↦ elim (Bool-cases (eqb (s.states index) 2)) [
      | inl settled ↦ rw (not_entered, settled) (unfold Ends in (λ i c. c))
      | inr not_settled ↦
          let is_open_here : is_open (s.states index) ≡ true = rw (not_entered, not_settled) in
          let entering = open_below-enter (length packages) s.states index h is_open_here in
          let t : Visits = record s { states = update_at s.states index 1 } in
          rw (not_entered, not_settled)
            (Ends-bind s t
              (visit_dependencies (visit_graph fuel packages indices) indices
                (dependencies_at packages index) 1 t)
              (settle index) (enter-le s.states index 1 refl)
              (visit_dependencies-Ends fuel (visit_graph fuel packages indices)
                (dependencies_at packages index) 1 t (λ i v. visit_graph-Ends fuel i v)
                (omega (arith, entering, few)))
              (λ r le. settle-Ends index r))
    ]
  ]

open_below_bound : (n : ℕ) (f : ℕ → ℕ) → open_below n f ≤ n
unfolding open_below
open_below_bound zero f = omega arith
open_below_bound (suc n) f = elim (Bool-cases (is_open (f n))) [
  | inl o ↦ omega (arith, ap weight o, open_below_bound n f)
  | inr c ↦ omega (arith, ap weight c, open_below_bound n f)
]

indices-IsInRange :
    (packages : List LockedPackage) → IsInRange (length packages) (index_from 0 packages [])
unfolding get
indices-IsInRange packages k j h = elim (index_from-key 0 packages [] k j h) [
  | inl none_there ↦ cc
  | inr (i, p, e, at, same) ↦ omega (arith, e, length_get_elem packages i p at)
]

-- the program returns a value, or an error of its own
abbrev pub Stops : {A : Type 0} → Made A → Type 0
Stops {A} m =
    ((a : A) × (m ≡ ok a)) ⊎ ((e : LockErrorKind) × (m ≡ err e) × (e ≢ LockErrorKind.out_of_fuel))

Ends-Stops : (s : Visits) (m : Made (ℕ × Visits)) → Ends s m → Stops m
unfolding Ends
Ends-Stops s (ok r) h = inl (r, refl)
Ends-Stops s (err e) h = inr (e, refl, h)

Stops-bind :
    {A B : Type 0} (m : Made A) (f : A → Made B)
    → Stops m
    → ((a : A) → Stops (f a))
    → Stops (m >>= f)
Stops-bind m f (inl (a, e)) next = rw e (next a)
Stops-bind m f (inr (x, e, n)) next = inr (x, rw e, n)

visit_all-Stops :
    (packages : List LockedPackage) (indices : Indices)
    → IsInRange (length packages) indices
    → (rounds index : ℕ) (s : Visits) → index + rounds ≤ length packages
    → Stops (visit_all rounds packages indices index s)
unfolding visit_all
visit_all-Stops packages indices in_range zero index s h = inl (s, refl)
visit_all-Stops packages indices in_range (suc rounds) index s h =
    Stops-bind (visit_graph (length packages + 1) packages indices index s)
      (λ r. visit_all rounds packages indices (index + 1) r.1)
      (Ends-Stops s (visit_graph (length packages + 1) packages indices index s) (
        visit_graph-Ends packages indices in_range (length packages + 1) index s (omega arith)
          (omega (arith, open_below_bound (length packages) s.states))))
      (λ r. visit_all-Stops packages indices in_range rounds (index + 1) r.1 (omega arith))

-- validate_graph returns on every list of packages: with the fuel that it gives to each visit, one
-- more than the number of packages, an error is always one of the program's own.
pub validate_graph_ends : (packages : List LockedPackage) → Stops (validate_graph packages)
unfolding validate_graph
validate_graph_ends packages =
    Stops-bind
      (reject_if (not (has_dependencies (index_from 0 packages []) packages))
        LockErrorKind.missing_package)
      (λ _.
        visit_all (length packages) packages (index_from 0 packages []) 0 unvisited >>= λ _. ok tt)
      (rejects (not (has_dependencies (index_from 0 packages []) packages)))
      (λ _.
        Stops-bind (visit_all (length packages) packages (index_from 0 packages []) 0 unvisited)
          (λ _. ok tt)
          (visit_all-Stops packages (index_from 0 packages []) (indices-IsInRange packages)
            (length packages) 0 unvisited (omega arith))
          (λ _. inl (tt, refl)))
  where
    rejects : (b : Bool) → Stops (reject_if b LockErrorKind.missing_package)
    rejects true = inr (LockErrorKind.missing_package, refl, λ x. cc)
    rejects false = inl (tt, refl)
