-- ===== src/Resolver/Cycles/Settled.antt =====
-- The keys that validate_cycles_and_depth has marked as done, and what they depend on.
use leanbun.Base.{
  ℕ, zero, suc, ◌+◌, List, [], ◌∷◌, Option, none, some, ltb, Bool-cases, inl, inr, ◌≡◌, refl, sym,
  subst, Within, ok, err, ◌>>=◌, >>=-eq-ok, Result,
}
use leanbun.Base.TreeMap.{get, insert, get-insert_cases}
use leanbun.Lock.Model.{PackageKey, key_ord}
use leanbun.Resolver.Model.{ErrorKind, ResolutionError, error, ResolvedPackage}
use leanbun.Resolver.Cycles.{
  Packages, States, package_map, visit_each, visit, map_keys, validate_cycles_and_depth,
}

same_states : (s t : States) → ◌≡◌ {A = Result ResolutionError States} (ok s) (ok t) → s ≡ t
same_states s t h = cc

module _ (m : Packages) where
  -- all that the key depends on, directly or through others, comes to an end
  pub data Settled : PackageKey → Type 0 where
    settled :
        {k : PackageKey}
        → ((p : ResolvedPackage) (d : PackageKey)
            → get k m ≡ some p
            → Within d p.dependencies
            → Settled d)
        → Settled k

  abbrev AllDone : States → Type 0
  AllDone s = (k : PackageKey) → get k s ≡ some 2 → Settled k

  visit_each-Settled :
      (step : PackageKey → States → Result ResolutionError States)
      → ((d : PackageKey) (s t : States) → step d s ≡ ok t → AllDone s → Settled d × AllDone t)
      → (ds : List PackageKey) (s t : States) → visit_each step ds s ≡ ok t
      → AllDone s
      → ((d : PackageKey) → Within d ds → Settled d) × AllDone t
  unfolding visit_each
  visit_each-Settled step h [] s t e done =
      (λ d w. absurd w, subst AllDone (same_states s t e) done)
  visit_each-Settled step h (k ∷ ks) s t e done =
      let (u, first, others) = >>=-eq-ok (step k s) _ e in
      let (here, done_u) = h k s u first done in
      let (further, done_t) = visit_each-Settled step h ks u t others done_u in
      (λ d w. elim w [ inl same ↦ subst Settled same here | inr v ↦ further d v ], done_t)

  -- a mark that is not 2 settles nothing
  entered : (k : PackageKey) (s : States) → AllDone s → AllDone (insert k 1 s)
  entered k s done j e = elim (get-insert_cases k j 1 s e) [
    | inl (_, one) ↦ absurd (cc one)
    | inr old ↦ done j old
  ]

  left : (k : PackageKey) (s : States) → Settled k → AllDone s → AllDone (insert k 2 s)
  left k s here done j e = elim (get-insert_cases k j 2 s e) [
    | inl (same, _) ↦ subst Settled (sym same) here
    | inr old ↦ done j old
  ]

  -- the part of a visit that enters the package
  enter-Settled :
      (step : PackageKey → States → Result ResolutionError States)
      → ((d : PackageKey) (s t : States) → step d s ≡ ok t → AllDone s → Settled d × AllDone t)
      → (k : PackageKey) (s t : States) (o : Option ResolvedPackage) → get k m ≡ o
      → elim o as (λ _. Result ResolutionError States) [
        | none ↦ err (error ErrorKind.missing_transitive_declaration)
        | some p ↦ visit_each step p.dependencies (insert k 1 s) >>= λ u. ok (insert k 2 u)
      ]
        ≡ ok t
      → AllDone s
      → Settled k × AllDone t
  enter-Settled step h k s t none at e done = absurd (cc e)
  enter-Settled step h k s t (some p) at e done =
      let (u, inner, is) = >>=-eq-ok (visit_each step p.dependencies (insert k 1 s)) _ e in
      let (below, done_u) =
        visit_each-Settled step h p.dependencies (insert k 1 s) u inner (entered k s done) in
      let here : Settled k = settled (λ q d found w.
        below d (subst (λ (r : ResolvedPackage). Within d r.dependencies) (only q found) w)) in
      (here, subst AllDone (same_states (insert k 2 u) t is) (left k u here done_u))
    where
      only : (q : ResolvedPackage) → get k m ≡ some q → q ≡ p
      only q found = cc

  by_state :
      (k : PackageKey) (s t : States) (further : Result ResolutionError States) (o : Option ℕ)
      → get k s ≡ o
      → elim o as (λ _. Result ResolutionError States) [
        | some (suc zero) ↦ err (error ErrorKind.dependency_cycle)
        | some (suc (suc zero)) ↦ ok s
        | _ ↦ further
      ]
        ≡ ok t
      → (further ≡ ok t → Settled k × AllDone t)
      → AllDone s
      → Settled k × AllDone t
  by_state k s t further none at e enters done = enters e
  by_state k s t further (some zero) at e enters done = enters e
  by_state k s t further (some (suc zero)) at e enters done = absurd (cc e)
  by_state k s t further (some (suc (suc zero))) at e enters done =
      (done k at, subst AllDone (same_states s t e) done)
  by_state k s t further (some (suc (suc (suc n)))) at e enters done = enters e

  visit-Settled :
      (fuel : ℕ) (k : PackageKey) (depth : ℕ) (s t : States)
      → visit fuel k depth m s ≡ ok t
      → AllDone s
      → Settled k × AllDone t
  unfolding visit
  visit-Settled zero k depth s t e done = absurd (cc e)
  visit-Settled (suc fuel) k depth s t e done = elim (Bool-cases (ltb 128 depth)) [
    | inl deep ↦ absurd (failed (rw deep at e))
    | inr shallow ↦
        by_state k s t _ (get k s) refl (rw (shallow, visit) at e)
          (λ entering.
            enter-Settled (λ d u. visit fuel d (depth + 1) m u)
              (λ d u v f. visit-Settled fuel d (depth + 1) u v f) k s t (get k m) refl entering
              done)
          done
  ]
    where
      failed : {x : ResolutionError} → ◌≡◌ {A = Result ResolutionError States} (err x) (ok t) → ⊥
      failed h = cc

-- where the validation succeeds, every key of the map is settled
pub validate_cycles-Settled :
    (packages : List ResolvedPackage)
    → validate_cycles_and_depth packages ≡ ok tt
    → (k : PackageKey) → Within k (map_keys (package_map packages []))
    → Settled (package_map packages []) k
unfolding validate_cycles_and_depth get
validate_cycles-Settled packages h k w =
    let m = package_map packages [] in
    let (t, visited, _) = >>=-eq-ok (visit_each (λ j s. visit 129 j 1 m s) (map_keys m) []) _ h in
    (visit_each-Settled m (λ j s. visit 129 j 1 m s) (λ d s u e. visit-Settled m 129 d 1 s u e)
        (map_keys m) [] t visited (λ j e. cc)).0
      k w
