-- ===== src/Resolver/Selecting/Closure.antt =====
-- The selection that the loops end with is closed under requirements.
use mathlib.Core.List.{reverse-append}
use leanbun.Base.{
  ℕ, zero, suc, ◌+◌, List, [], ◌∷◌, Option, none, some, ◌≡◌, refl, ap, ◌⊎◌, inl, inr, subst, Within,
  Within-append_left, Within-append_right, ok, err, >>=-eq-ok, reverse, arith,
}
use leanbun.Base.TreeMap.{IsAscending, get}
use leanbun.Lock.Model.{PackageKey, key_ord}
use leanbun.Resolver.Model.{ErrorKind, error, Requirement, Origin, Selected}
use leanbun.Resolver.Selecting.Defs.{
  Context, Selection, select_requirement, number_from, select_all, select_reversed, expand, drain,
}
use leanbun.Resolver.Selecting.Step.{
  IsKeyed, IsChosen, Meets, Grows, Grows-refl, Grows-trans, Meets-keeps, select_requirement-Grows,
}

-- every requirement of the list is met
abbrev pub MeetsAll : Selection → List Requirement → Type 0
MeetsAll s requirements = (r : Requirement) → Within r requirements → Meets s r

pub Within-reverse : {A : Type 0} (a : A) (xs : List A) → Within a xs → Within a (reverse xs)
Within-reverse a [] h = h
Within-reverse a (x ∷ xs) (inl e) =
    rw (reverse-append (x ∷ []) xs) (Within-append_right a (reverse xs) (x ∷ []) (inl e))
Within-reverse a (x ∷ xs) (inr w) =
    rw (reverse-append (x ∷ []) xs)
      (Within-append_left a (reverse xs) (x ∷ []) (Within-reverse a xs w))

Within-number_from :
    (n : ℕ) (rs : List Requirement) (r : Requirement)
    → Within r rs
    → (i : ℕ) × Within (i, r) (number_from n rs)
unfolding number_from
Within-number_from n [] r h = absurd h
Within-number_from n (x ∷ rs) r (inl e) = (n, inl (ap (λ y. (n, y)) e))
Within-number_from n (x ∷ rs) r (inr w) =
    let (i, h) = Within-number_from (n + 1) rs r w in (i, inr h)

module _ (ctx : Context) (keyed : IsKeyed ctx.registry) where
  select_all-Grows :
      (origin : ℕ → Origin) (rs : List (ℕ × Requirement)) (s t : Selection)
      → select_all ctx origin rs s ≡ ok t
      → Grows ctx s t × ((i : ℕ) (r : Requirement) → Within (i, r) rs → Meets t r)
  unfolding select_all
  select_all-Grows origin [] s t h =
      (subst (Grows ctx s) (cc) (Grows-refl ctx s), λ i r w. absurd w)
  select_all-Grows origin ((j, q) ∷ rest) s t h =
      let (u, first, others) =
        >>=-eq-ok (select_requirement ctx q (origin j) s) (select_all ctx origin rest) h in
      let (grown, met) = select_requirement-Grows ctx keyed q (origin j) s u first in
      let (further, all_met) = select_all-Grows origin rest u t others in
      (
        Grows-trans ctx grown further,
        λ i r w. elim w [
          | inl e ↦ subst (λ (p : ℕ × Requirement). Meets t p.1) e (Meets-keeps ctx q further met)
          | inr v ↦ all_met i r v
        ],
      )

  pub select_reversed-Grows :
      (origin : ℕ → Origin) (rs : List Requirement) (s t : Selection)
      → select_reversed ctx origin rs s ≡ ok t
      → Grows ctx s t × MeetsAll t rs
  unfolding select_reversed
  select_reversed-Grows origin rs s t h =
      let (grown, met) = select_all-Grows origin (reverse (number_from 0 rs)) s t h in
      (
        grown,
        λ r w.
            let (i, v) = Within-number_from 0 rs r w in
            met i r (Within-reverse (i, r) (number_from 0 rs) v),
      )

  -- each selected candidate may stand for its key, and its requirements are met unless it still waits
  pub record IsSound (s : Selection) : Type 0 where
    pub chosen :
        (k : PackageKey) (e : Selected) → get k s.selected ≡ some e → IsChosen ctx k e.candidate
    pub closed :
        (k : PackageKey) (e : Selected)
        → get k s.selected ≡ some e
        → Within k s.queue ⊎ MeetsAll s e.candidate.dependencies

  pub Grows-IsSound : (s t : Selection) → Grows ctx s t → IsSound s → IsSound t
  Grows-IsSound s t g h = record {
    chosen = λ k e x. elim (g.fresh k e x) [ inl old ↦ h.chosen k e old | inr new ↦ new.1 ];
    closed = λ k e x. elim (g.fresh k e x) [
      | inl old ↦ elim (h.closed k e old) [
        | inl w ↦ inl (g.queues k w)
        | inr m ↦ inr (λ r w. Meets-keeps ctx r g (m r w))
      ]
      | inr new ↦ inl new.0
    ];
  }

  -- one round: the parent leaves the queue, and its requirements are met
  expand-IsSound :
      (parent : PackageKey) (rest : List PackageKey) (s t : Selection)
      → s.queue ≡ parent ∷ rest
      → expand ctx parent (record s { queue = rest }) ≡ ok t
      → IsSound s
      → Grows ctx (record s { queue = rest }) t × IsSound t
  unfolding expand
  expand-IsSound parent rest s t e h sound = by_entry (get parent s.selected) refl h
    where
      popped : Selection
      popped = record s { queue = rest }

      by_entry :
          (o : Option Selected)
          → get parent s.selected ≡ o
          → elim o [
            | none ↦ err (error ErrorKind.invalid_field)
            | some entry ↦
                select_reversed ctx (Origin.from_package parent) entry.candidate.dependencies popped
          ]
            ≡ ok t
          → Grows ctx popped t × IsSound t
      by_entry none found x = cc
      by_entry (some entry) found x =
          let (grown, met) =
            select_reversed-Grows (Origin.from_package parent) entry.candidate.dependencies popped t
              x in
          (
            grown,
            record {
              chosen = λ k u y. elim (grown.fresh k u y) [
                | inl old ↦ sound.chosen k u old
                | inr new ↦ new.1
              ];
              closed = λ k u y. elim (grown.fresh k u y) [
                | inl old ↦
                    elim (subst (λ q. Within k q ⊎ MeetsAll s u.candidate.dependencies) e
                      (sound.closed k u old)) [
                        | inl (inl p) ↦
                            let same : entry ≡ u = cc (found, old, ap (λ j. get j s.selected) p) in
                            inr (
                              subst (λ (v : Selected). MeetsAll t v.candidate.dependencies) same
                                met)
                        | inl (inr w) ↦ inl (grown.queues k w)
                        | inr m ↦ inr (λ r w. Meets-keeps ctx r grown (record {
                          entry = (m r w).entry;
                          holds = (m r w).holds;
                          matches = (m r w).matches;
                        }))
                      ]
                | inr new ↦ inl new.0
              ];
            },
          )

  drain-zero : (s t : Selection) → drain zero ctx s ≡ ok t → ⊥
  unfolding drain
  drain-zero s t h = cc

  drain_step :
      (fuel : ℕ) (s t : Selection) (queue : List PackageKey)
      → s.queue ≡ queue
      → drain (suc fuel) ctx s ≡ ok t
      → ((queue ≡ []) × (s ≡ t))
        ⊎ ((parent : PackageKey) × (rest : List PackageKey) × (u : Selection) × (queue
              ≡ parent ∷ rest)
            × (expand ctx parent (record s { queue = rest }) ≡ ok u)
            × (drain fuel ctx u ≡ ok t))
  unfolding drain
  drain_step fuel s t [] e h = inl (refl, ground arith)
  drain_step fuel s t (parent ∷ rest) e h =
      let (u, first, others) =
        >>=-eq-ok (expand ctx parent (record s { queue = rest })) (drain fuel ctx)
          (rw (e, drain) at h) in
      inr (parent, rest, u, refl, first, others)

  -- For a registry that lists each candidate under its own key and a sound selection: when the loop
  -- returns a selection, that is sound and its queue is empty, so that every requirement of a selected
  -- candidate is met, and each entry that was selected before is still there.
  pub drain-IsSound :
      (fuel : ℕ) (s t : Selection)
      → drain fuel ctx s ≡ ok t
      → IsSound s
      → IsSound t
        × (t.queue ≡ [])
        × ((k : PackageKey) (e : Selected) → get k s.selected ≡ some e → get k t.selected ≡ some e)
  drain-IsSound zero s t h sound = absurd (drain-zero s t h)
  drain-IsSound (suc fuel) s t h sound = elim (drain_step fuel s t s.queue refl h) [
    | inl (empty, same) ↦
        subst
          (λ (u : Selection).
            IsSound u
            × (u.queue ≡ [])
            × ((k : PackageKey) (e : Selected)
                → get k s.selected ≡ some e
                → get k u.selected ≡ some e))
          same (sound, empty, λ k e x. x)
    | inr (parent, rest, u, q, first, others) ↦
        let (grown, sound_u) = expand-IsSound parent rest s u q first sound in
        let (sound_t, empty, keeps) = drain-IsSound fuel u t others sound_u in
        (sound_t, empty, λ k e x. keeps k e (grown.keeps k e x))
  ]

  -- and a selection in ascending order of its keys stays so
  pub drain-IsAscending :
      (fuel : ℕ) (s t : Selection)
      → drain fuel ctx s ≡ ok t
      → IsSound s
      → IsAscending s.selected
      → IsAscending t.selected
  drain-IsAscending zero s t h sound ascends = absurd (drain-zero s t h)
  drain-IsAscending (suc fuel) s t h sound ascends = elim (drain_step fuel s t s.queue refl h) [
    | inl (empty, same) ↦ subst (λ (u : Selection). IsAscending u.selected) same ascends
    | inr (parent, rest, u, q, first, others) ↦
        let (grown, sound_u) = expand-IsSound parent rest s u q first sound in
        drain-IsAscending fuel u t others sound_u (grown.ascends ascends)
  ]
