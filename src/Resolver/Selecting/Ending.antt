-- ===== src/Resolver/Selecting/Ending.antt =====
-- The loop over the queue ends: each round takes a key off it, and a key that is put on it is no
-- longer free.
use leanbun.Base.{
  ℕ, zero, suc, ◌+◌, ◌≤◌, ◌<◌, List, [], ◌∷◌, Option, none, some, ◌≡◌, ◌≢◌, refl, sym, ◌⊎◌, inl,
  inr, subst, Within, Result, ok, err, ◌>>=◌, length, length-append, arith, filter, Within-filter,
  Bool-cases, any, reverse, eqb,
}
use leanbun.Base.TreeMap.{get}
use leanbun.Lock.Model.{PackageKey, key_ord}
use leanbun.Resolver.Model.{
  ErrorKind, ResolutionError, error, Requirement, Candidate, Origin, Selected, kind_tag,
  request_matches_candidate,
}
use leanbun.Resolver.Selecting.Defs.{
  Context, Selection, shadow_existing, accept, accept_only, select_new, select_requirement,
  eligible, number_from, select_all, select_reversed, expand, drain, toolchain_agrees,
}
use leanbun.Resolver.Selecting.Step.{IsKeyed}
use leanbun.Resolver.Stops.{Stops}
use leanbun.Resolver.Selecting.Fuel.{free, free-insert_new}

-- what waits, and what may still be queued
unfoldable pub potential : Context → Selection → ℕ
unfolding free
potential ctx s = length s.queue + free ctx.registry s.selected

-- a result that leaves at most so much to do, or an error that is the program's own
Ends : Context → ℕ → Result ResolutionError Selection → Type 0
Ends ctx n (ok t) = potential ctx t ≤ n
Ends ctx n (err e) = e.kind ≢ ErrorKind.out_of_fuel

module _ (ctx : Context) where
  Ends-bind :
      (n k : ℕ) (m : Result ResolutionError Selection)
      (f : Selection → Result ResolutionError Selection)
      → Ends ctx n m
      → ((t : Selection) → potential ctx t ≤ n → Ends ctx k (f t))
      → Ends ctx k (m >>= f)
  unfolding Ends
  Ends-bind n k (ok t) f h next = next t h
  Ends-bind n k (err e) f h next = h

  shadow_existing-Ends :
      (r : Requirement) (origin : Origin) (existing : Selected) (s : Selection)
      → Ends ctx (potential ctx s) (shadow_existing r origin existing s)
  unfolding shadow_existing Ends potential
  shadow_existing-Ends r origin existing s =
      elim (Bool-cases (request_matches_candidate r.source existing.candidate)) [
        | inl same ↦ rw same (omega arith)
        | inr other ↦ rw other (λ e. cc)
      ]

  accept-Ends :
      (origin : Origin) (c : Candidate) (s : Selection) {cs : List Candidate}
      → get c.key ctx.registry ≡ some cs
      → get c.key s.selected ≡ none
      → Ends ctx (potential ctx s) (accept ctx origin c s)
  unfolding accept Ends potential
  accept-Ends origin c s listed new = elim (Bool-cases (toolchain_agrees ctx c)) [
    | inl same ↦ rw same (
        omega (
          arith,
          length-append s.queue (c.key ∷ []),
          free-insert_new ctx.registry c.key (record { candidate = c; winner = origin }) s.selected
              listed new,
        ))
    | inr other ↦ rw other (λ e. cc)
  ]

  accept_only-Ends :
      (r : Requirement) (origin : Origin) (available matching : List Candidate) (s : Selection)
      {cs : List Candidate}
      → ((c : Candidate) → Within c matching → c.key ≡ r.key)
      → get r.key ctx.registry ≡ some cs
      → get r.key s.selected ≡ none
      → Ends ctx (potential ctx s) (accept_only ctx r origin available matching s)
  unfolding accept_only Ends
  accept_only-Ends r origin available [] s keyed listed new =
      elim (Bool-cases (any (λ c. eqb (kind_tag c.requested) (kind_tag r.source)) available)) [
        | inl same ↦ rw same (λ e. cc)
        | inr other ↦ rw other (λ e. cc)
      ]
  accept_only-Ends r origin available (c ∷ []) s {cs} keyed listed new =
      let same : r.key ≡ c.key = sym (keyed c (inl refl)) in
      accept-Ends origin c s (subst (λ k. get k ctx.registry ≡ some cs) same listed)
        (subst (λ k. get k s.selected ≡ none) same new)
  accept_only-Ends r origin available (c ∷ d ∷ rest) s keyed listed new = λ e. cc

  module _ (keyed : IsKeyed ctx.registry) where
    select_requirement-Ends :
        (r : Requirement) (origin : Origin) (s : Selection)
        → Ends ctx (potential ctx s) (select_requirement ctx r origin s)
    unfolding select_requirement select_new
    select_requirement-Ends r origin s = by_entry (get r.key s.selected) refl
      where
        by_available :
            (o : Option (List Candidate))
            → get r.key ctx.registry ≡ o
            → get r.key s.selected ≡ none
            → Ends ctx (potential ctx s) (select_new ctx r origin o s)
        by_available none e new = unfold Ends in (λ x. cc)
        by_available (some cs) e new =
            accept_only-Ends r origin cs (filter (eligible ctx r) cs) s
              (λ c w. keyed r.key cs e c (Within-filter (eligible ctx r) cs c w).1) e new

        by_entry :
            (o : Option Selected)
            → get r.key s.selected ≡ o
            → Ends ctx (potential ctx s) (elim o [
              | some existing ↦ shadow_existing r origin existing s
              | none ↦ select_new ctx r origin (get r.key ctx.registry) s
            ])
        by_entry (some existing) e = shadow_existing-Ends r origin existing s
        by_entry none e = by_available (get r.key ctx.registry) refl e

    Ends-weaken :
        (n k : ℕ) (m : Result ResolutionError Selection) → n ≤ k → Ends ctx n m → Ends ctx k m
    unfolding Ends
    Ends-weaken n k (ok t) le h = omega arith
    Ends-weaken n k (err e) le h = h

    select_all-Ends :
        (origin : ℕ → Origin) (rs : List (ℕ × Requirement)) (s : Selection)
        → Ends ctx (potential ctx s) (select_all ctx origin rs s)
    unfolding select_all
    select_all-Ends origin [] s = unfold Ends in omega arith
    select_all-Ends origin ((i, r) ∷ rest) s =
        Ends-bind (potential ctx s) (potential ctx s) (select_requirement ctx r (origin i) s)
          (select_all ctx origin rest) (select_requirement-Ends r (origin i) s)
          (λ t le.
            Ends-weaken (potential ctx t) (potential ctx s) (select_all ctx origin rest t) le
              (select_all-Ends origin rest t))

    expand-Ends :
        (parent : PackageKey) (s : Selection) → Ends ctx (potential ctx s) (expand ctx parent s)
    unfolding expand select_reversed
    expand-Ends parent s = by_entry (get parent s.selected)
      where
        by_entry :
            (o : Option Selected)
            → Ends ctx (potential ctx s) (elim o [
              | none ↦ err (error ErrorKind.invalid_field)
              | some entry ↦
                  select_reversed ctx (Origin.from_package parent) entry.candidate.dependencies s
            ])
        by_entry none = unfold Ends in (λ x. cc)
        by_entry (some entry) =
            select_all-Ends (Origin.from_package parent)
              (reverse (number_from 0 entry.candidate.dependencies)) s

    drain-Ends :
        (fuel : ℕ) (s : Selection)
        → potential ctx s < fuel
        → Ends ctx (potential ctx s) (drain fuel ctx s)
    unfolding drain
    drain-Ends zero s enough = absurd (omega arith)
    drain-Ends (suc fuel) s enough =
        by_queue s.queue refl (λ t le. drain-Ends fuel t (omega (arith, le, enough)))
      where
        rest_of : List PackageKey → Selection
        rest_of rest = record s { queue = rest }

        by_queue :
            (queue : List PackageKey)
            → s.queue ≡ queue
            → ((t : Selection)
                → suc (potential ctx t) ≤ potential ctx s
                → Ends ctx (potential ctx t) (drain fuel ctx t))
            → Ends ctx (potential ctx s) (elim queue [
              | [] ↦ ok s
              | parent ∷ rest ↦ expand ctx parent (record s { queue = rest }) >>= drain fuel ctx
            ])
        by_queue [] e next = unfold Ends in omega arith
        by_queue (parent ∷ rest) e next =
            let less : suc (potential ctx (rest_of rest)) ≤ potential ctx s =
              unfold potential in rw e (omega arith) in
            Ends-bind (potential ctx (rest_of rest)) (potential ctx s)
              (expand ctx parent (rest_of rest)) (drain fuel ctx)
              (expand-Ends parent (rest_of rest))
              (λ t le.
                Ends-weaken (potential ctx t) (potential ctx s) (drain fuel ctx t) (omega arith)
                  (next t (omega arith)))

    -- For a registry that lists each candidate under its own key, the loop over the queue ends when
    -- its fuel exceeds the length of the queue and the number of keys for which nothing is selected:
    -- it returns a selection or one of the program's own errors.
    pub drain_ends :
        (fuel : ℕ) (s : Selection)
        → potential ctx s < fuel
        → ((t : Selection) × (drain fuel ctx s ≡ ok t))
          ⊎ ((e : ResolutionError) × (drain fuel ctx s ≡ err e) × (e.kind ≢ ErrorKind.out_of_fuel))
    drain_ends fuel s enough = by_result (drain fuel ctx s) refl (drain-Ends fuel s enough)
      where
        by_result :
            (r : Result ResolutionError Selection)
            → drain fuel ctx s ≡ r
            → Ends ctx (potential ctx s) r
            → ((t : Selection) × (drain fuel ctx s ≡ ok t))
              ⊎ ((e : ResolutionError) × (drain fuel ctx s ≡ err e)
                  × (e.kind ≢ ErrorKind.out_of_fuel))
        by_result (ok t) x h = inl (t, x)
        by_result (err e) x h = inr (e, x, unfold Ends in h)

    pub select_requirement-Stops :
        (r : Requirement) (origin : Origin) (s : Selection)
        → Stops (select_requirement ctx r origin s)
    select_requirement-Stops r origin s =
        by_result (select_requirement ctx r origin s) (select_requirement-Ends r origin s)
      where
        by_result : (m : Result ResolutionError Selection) → Ends ctx (potential ctx s) m → Stops m
        by_result (ok t) h = unfold Stops in tt
        by_result (err e) h = unfold Stops Ends in h

    pub drain-Stops : (fuel : ℕ) (s : Selection) → potential ctx s < fuel → Stops (drain fuel ctx s)
    drain-Stops fuel s enough = by_result (drain fuel ctx s) (drain-Ends fuel s enough)
      where
        by_result : (m : Result ResolutionError Selection) → Ends ctx (potential ctx s) m → Stops m
        by_result (ok t) h = unfold Stops in tt
        by_result (err e) h = unfold Stops Ends in h
