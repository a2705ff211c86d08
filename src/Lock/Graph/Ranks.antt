-- ===== src/Lock/Graph/Ranks.antt =====
-- What a visit leaves behind: the depth of each settled package is one above the deepest of its
-- dependencies, which are settled.
use leanbun.Base.{
  ℕ, zero, suc, ◌+◌, ◌≤◌, ◌<◌, length, max, List, [], ◌∷◌, Option, none, some, ◌≡◌, ◌≢◌, refl, sym,
  ap, ◌∙◌, inl, inr, subst, All, eqb, eqb_iff, ltb, Bool-cases, arith, ok, err, ◌>>=◌, >>=-eq-ok,
  ℕ_discrete,
}
use leanbun.Base.TreeMap.{get}
use leanbun.Lock.Model.{PackageKey, key_ord, LockedPackage, LockErrorKind}
use leanbun.Lock.Fields.{Made}
use leanbun.Lock.Graph.{
  Indices, Visits, update_at, dependencies_at, visit_dependencies, settle, visit_graph, visit_all,
}

pub update_at_self : (f : ℕ → ℕ) (i v : ℕ) → update_at f i v i ≡ v
unfolding update_at
update_at_self f i v = rw ((eqb_iff i i).1 refl)

pub update_at-ne : (f : ℕ → ℕ) (i v j : ℕ) → j ≢ i → update_at f i v j ≡ f j
unfolding update_at
update_at-ne f i v j h = elim (Bool-cases (eqb j i)) [
  | inl e ↦ absurd (h ((eqb_iff j i).0 e))
  | inr e ↦ rw e
]

-- the depth of the package of a key
abbrev pub depth_of : Option ℕ → (ℕ → ℕ) → ℕ
depth_of none depths = 0
depth_of (some j) depths = depths j

-- one above the deepest of the dependencies, and at least `depth`
unfoldable pub deepest : Indices → (ℕ → ℕ) → ℕ → List PackageKey → ℕ
deepest indices depths depth [] = depth
deepest indices depths depth (d ∷ ds) =
    deepest indices depths (max depth (1 + depth_of (get d indices) depths)) ds

-- each dependency is the key of a package that satisfies the predicate
abbrev pub Each : Indices → (ℕ → Type 0) → List PackageKey → Type 0
Each indices P ds = All (λ d. (j : ℕ) × (get d indices ≡ some j) × P j) ds

Each-imp :
    (indices : Indices) {P Q : ℕ → Type 0}
    → ((j : ℕ) → P j → Q j)
    → (ds : List PackageKey) → Each indices P ds
    → Each indices Q ds
Each-imp indices f [] h = tt
Each-imp indices f (d ∷ ds) ((j, e, p), rest) = ((j, e, f j p), Each-imp indices f ds rest)

deepest_agree :
    (indices : Indices) (f g : ℕ → ℕ) (depth : ℕ) (ds : List PackageKey)
    → Each indices (λ j. f j ≡ g j) ds
    → deepest indices f depth ds ≡ deepest indices g depth ds
unfolding deepest
deepest_agree indices f g depth [] h = refl
deepest_agree indices f g depth (d ∷ ds) ((j, e, p), rest) =
    rw (e, p) (deepest_agree indices f g (max depth (1 + g j)) ds rest)

module _ (packages : List LockedPackage) (indices : Indices) where
  -- what is known of a settled package
  pub record IsRanked (s : Visits) (i : ℕ) : Type 0 where
    pub small : s.depths i ≤ 128
    pub settled : Each indices (λ j. s.states j ≡ 2) (dependencies_at packages i)
    pub exact : s.depths i ≡ deepest indices s.depths 1 (dependencies_at packages i)

  abbrev pub AllRanked : Visits → Type 0
  AllRanked s = (i : ℕ) → s.states i ≡ 2 → IsRanked s i

  pub record Keeps (s t : Visits) : Type 0 where
    pub settled : (i : ℕ) → s.states i ≡ 2 → (t.states i ≡ 2) × (t.depths i ≡ s.depths i)
    pub entered : (i : ℕ) → s.states i ≡ 1 → t.states i ≡ 1

  pub Keeps-refl : (s : Visits) → Keeps s s
  Keeps-refl s = record { settled = λ i h. (h, refl); entered = λ i h. h }

  pub Keeps-trans : {s t u : Visits} → Keeps s t → Keeps t u → Keeps s u
  Keeps-trans f g = record {
    settled = λ i h. let (a, b) = f.settled i h in let (c, d) = g.settled i a in (c, d ∙ b);
    entered = λ i h. g.entered i (f.entered i h);
  }

  -- ranks hold where the depths of settled packages agree
  IsRanked-move :
      (s t : Visits) (i : ℕ)
      → t.depths i ≡ s.depths i
      → ((j : ℕ) → s.states j ≡ 2 → (t.states j ≡ 2) × (t.depths j ≡ s.depths j))
      → IsRanked s i
      → IsRanked t i
  IsRanked-move s t i same moves r = record {
    small = rw same r.small;
    settled = Each-imp indices (λ j h. (moves j h).0) (dependencies_at packages i) r.settled;
    exact =
        same
        ∙ r.exact
        ∙ deepest_agree indices s.depths t.depths 1 (dependencies_at packages i)
            (Each-imp indices (λ j h. sym (moves j h).1) (dependencies_at packages i) r.settled);
  }

  -- what a successful visit of a package leaves
  pub record Visited (s : Visits) (i : ℕ) (r : ℕ × Visits) : Type 0 where
    pub ranked : AllRanked r.1
    pub keeps : Keeps s r.1
    pub here : r.1.states i ≡ 2
    pub depth : r.1.depths i ≡ r.0

  abbrev IsGood : (ℕ → Visits → Made (ℕ × Visits)) → Type 0
  IsGood visit =
      (i : ℕ) (s : Visits) (r : ℕ × Visits) → visit i s ≡ ok r → AllRanked s → Visited s i r

  visit_dependencies_lem :
      (visit : ℕ → Visits → Made (ℕ × Visits)) (ds : List PackageKey) (depth : ℕ) (s : Visits)
      (r : ℕ × Visits)
      → IsGood visit
      → visit_dependencies visit indices ds depth s ≡ ok r
      → AllRanked s
      → AllRanked r.1
        × Keeps s r.1
        × Each indices (λ j. r.1.states j ≡ 2) ds
        × (r.0 ≡ deepest indices r.1.depths depth ds)
  unfolding visit_dependencies deepest
  visit_dependencies_lem visit [] depth s r good h ranked =
      let same : (depth, s) ≡ r = cc in
      (
        subst (λ (p : ℕ × Visits). AllRanked p.1) same ranked,
        subst (λ (p : ℕ × Visits). Keeps s p.1) same (Keeps-refl s),
        tt,
        sym (ap (λ (p : ℕ × Visits). p.0) same),
      )
  visit_dependencies_lem visit (d ∷ ds) depth s r good h ranked =
      by_found (get d indices) refl h (λ n t. visit_dependencies_lem visit ds n t r good)
    where
      by_found :
          (o : Option ℕ)
          → get d indices ≡ o
          → elim o [
            | none ↦ err LockErrorKind.missing_package
            | some next ↦
                visit next s >>= λ p. visit_dependencies visit indices ds (max depth (1 + p.0)) p.1
          ]
            ≡ ok r
          → ((n : ℕ) (t : Visits)
              → visit_dependencies visit indices ds n t ≡ ok r
              → AllRanked t
              → AllRanked r.1
                × Keeps t r.1
                × Each indices (λ j. r.1.states j ≡ 2) ds
                × (r.0 ≡ deepest indices r.1.depths n ds))
          → AllRanked r.1
            × Keeps s r.1
            × Each indices (λ j. r.1.states j ≡ 2) (d ∷ ds)
            × (r.0 ≡ deepest indices r.1.depths depth (d ∷ ds))
      by_found none e x ih = cc
      by_found (some next) e x ih =
          let (p, first, others) =
            >>=-eq-ok (visit next s)
              (λ p. visit_dependencies visit indices ds (max depth (1 + p.0)) p.1) x in
          let v = good next s p first ranked in
          let (all, keeps, each, same) = ih (max depth (1 + p.0)) p.1 others v.ranked in
          let (still, deep) = keeps.settled next v.here in
          (all, Keeps-trans v.keeps keeps, ((next, e, still), each), rw (e, deep, v.depth) same)

  -- the vectors after a package is settled
  abbrev after_settling : ℕ → ℕ → Visits → Visits
  after_settling index depth v = record {
    states = update_at v.states index 2;
    depths = update_at v.depths index depth;
  }

  module _ (index depth : ℕ) (s v : Visits)
      (keeps : Keeps (record s { states = update_at s.states index 1 }) v) where
    settled-ne : (j : ℕ) → v.states j ≡ 2 → j ≢ index
    settled-ne j h e =
        let entered : v.states index ≡ 1 = keeps.entered index (update_at_self s.states index 1) in
        let same : v.states j ≡ v.states index = ap v.states e in omega (arith, h, same, entered)

    settling_moves :
        (j : ℕ)
        → v.states j ≡ 2
        → ((after_settling index depth v).states j ≡ 2)
          × ((after_settling index depth v).depths j ≡ v.depths j)
    settling_moves j h = (
      update_at-ne v.states index 2 j (settled-ne j h) ∙ h,
      update_at-ne v.depths index depth j (settled-ne j h),
    )

    settling-AllRanked :
        AllRanked v
        → depth ≤ 128
        → Each indices (λ j. v.states j ≡ 2) (dependencies_at packages index)
        → depth ≡ deepest indices v.depths 1 (dependencies_at packages index)
        → AllRanked (after_settling index depth v)
    settling-AllRanked ranked shallow each exact i h = elim (ℕ_discrete i index) [
      | yes same ↦ subst (IsRanked (after_settling index depth v)) (sym same) (record {
        small = rw (update_at_self v.depths index depth) shallow;
        settled =
            Each-imp indices (λ j e. (settling_moves j e).0) (dependencies_at packages index) each;
        exact =
            update_at_self v.depths index depth
            ∙ exact
            ∙ deepest_agree indices v.depths (update_at v.depths index depth) 1
                (dependencies_at packages index)
                (Each-imp indices (λ j e. sym (settling_moves j e).1)
                  (dependencies_at packages index) each);
      })
      | no other ↦
          IsRanked-move v (after_settling index depth v) i
            (update_at-ne v.depths index depth i other) settling_moves
            (ranked i (sym (update_at-ne v.states index 2 i other) ∙ h))
    ]

    settling-Keeps :
        s.states index ≢ 1 → s.states index ≢ 2 → Keeps s (after_settling index depth v)
    settling-Keeps fresh open_ = record {
      settled = λ i h.
          let other : i ≢ index = λ e. open_ (sym (ap s.states e) ∙ h) in
          let (a, b) = keeps.settled i (update_at-ne s.states index 1 i other ∙ h) in
          let (c, d) = settling_moves i a in (c, d ∙ b);
      entered = λ i h.
          let other : i ≢ index = λ e. fresh (sym (ap s.states e) ∙ h) in
          update_at-ne v.states index 2 i other
          ∙ keeps.entered i (update_at-ne s.states index 1 i other ∙ h);
    }

  settle_lem :
      (index : ℕ) (r u : ℕ × Visits)
      → settle index r ≡ ok u
      → (r.0 ≤ 128) × (u ≡ (r.0, after_settling index r.0 r.1))
  unfolding settle
  settle_lem index (depth, v) u h = elim (Bool-cases (ltb 128 depth)) [
    | inl deep ↦ cc
    | inr shallow ↦ (ground arith, cc)
  ]

  entering-AllRanked :
      (index : ℕ) (s : Visits)
      → s.states index ≢ 2
      → AllRanked s
      → AllRanked (record s { states = update_at s.states index 1 })
  entering-AllRanked index s open_ ranked i h =
      IsRanked-move s (record s { states = update_at s.states index 1 }) i refl
        (λ j e. (update_at-ne s.states index 1 j (λ p. open_ (sym (ap s.states p) ∙ e)) ∙ e, refl))
        (ranked i (elim (ℕ_discrete i index) [
          | yes same ↦ absurd (
              omega
                (arith, h, ap (update_at s.states index 1) same, update_at_self s.states index 1))
          | no other ↦ sym (update_at-ne s.states index 1 i other) ∙ h
        ]))

  -- the visit of a package that was not visited before
  fresh_visit :
      (visit : ℕ → Visits → Made (ℕ × Visits)) (index : ℕ) (s : Visits) (u : ℕ × Visits)
      → IsGood visit
      → (visit_dependencies visit indices
            (dependencies_at packages index)
            1
            (record s { states = update_at s.states index 1 })
          >>= settle index)
        ≡ ok u
      → s.states index ≢ 1
      → s.states index ≢ 2
      → AllRanked s
      → Visited s index u
  fresh_visit visit index s u good h fresh open_ ranked =
      let entered : Visits = record s { states = update_at s.states index 1 } in
      let (r, looped, ended) =
        >>=-eq-ok (visit_dependencies visit indices (dependencies_at packages index) 1 entered)
          (settle index) h in
      let (all, keeps, each, exact) =
        visit_dependencies_lem visit (dependencies_at packages index) 1 entered r good looped
          (entering-AllRanked index s open_ ranked) in
      let (shallow, is_u) = settle_lem index r u ended in
      subst (Visited s index) (sym is_u) (record {
        ranked = settling-AllRanked index r.0 s r.1 keeps all shallow each exact;
        keeps = settling-Keeps index r.0 s r.1 keeps fresh open_;
        here = update_at_self r.1.states index 2;
        depth = update_at_self r.1.depths index r.0;
      })

  pub visit_graph-Visited :
      (fuel index : ℕ) (s : Visits) (u : ℕ × Visits)
      → visit_graph fuel packages indices index s ≡ ok u
      → AllRanked s
      → Visited s index u
  unfolding visit_graph
  visit_graph-Visited zero index s u h ranked = cc
  visit_graph-Visited (suc fuel) index s u h ranked = elim (Bool-cases (eqb (s.states index) 1)) [
    | inl entered ↦ cc
    | inr not_entered ↦ elim (Bool-cases (eqb (s.states index) 2)) [
      | inl settled ↦
          let returned : ◌≡◌ {A = Made (ℕ × Visits)} (ok (s.depths index, s)) (ok u) =
            rw (not_entered, settled) at h in
          let is_u : (s.depths index, s) ≡ u = cc in
          subst (Visited s index) is_u (record {
            ranked = ranked;
            keeps = Keeps-refl s;
            here = (eqb_iff (s.states index) 2).0 settled;
            depth = refl;
          })
      | inr not_settled ↦
          fresh_visit (visit_graph fuel packages indices) index s u
            (λ i t r. visit_graph-Visited fuel i t r) (rw (not_entered, not_settled) at h)
            (λ e. cc (not_entered, (eqb_iff (s.states index) 1).1 e))
            (λ e. cc (not_settled, (eqb_iff (s.states index) 2).1 e)) ranked
    ]
  ]

  pub visit_all-AllRanked :
      (rounds index : ℕ) (s t : Visits)
      → visit_all rounds packages indices index s ≡ ok t
      → AllRanked s
      → AllRanked t × Keeps s t × ((i : ℕ) → index ≤ i → i < index + rounds → t.states i ≡ 2)
  unfolding visit_all
  visit_all-AllRanked zero index s t h ranked =
      let same : s ≡ t = cc in
      (
        subst AllRanked same ranked,
        subst (Keeps s) same (Keeps-refl s),
        λ i low high. absurd (omega arith),
      )
  visit_all-AllRanked (suc rounds) index s t h ranked =
      let (r, first, others) =
        >>=-eq-ok (visit_graph (length packages + 1) packages indices index s)
          (λ r. visit_all rounds packages indices (index + 1) r.1) h in
      let v = visit_graph-Visited (length packages + 1) index s r first ranked in
      let (all, keeps, covered) = visit_all-AllRanked rounds (index + 1) r.1 t others v.ranked in
      (
        all,
        Keeps-trans v.keeps keeps,
        λ i low high. elim (ℕ_discrete i index) [
          | yes same ↦ (keeps.settled i (subst (λ j. r.1.states j ≡ 2) (sym same) v.here)).0
          | no other ↦ covered i (omega arith) (omega arith)
        ],
      )
