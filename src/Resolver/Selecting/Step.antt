-- ===== src/Resolver/Selecting/Step.antt =====
-- What one call of select_requirement does to a selection.
use leanbun.Base.{
  List, [], ◌∷◌, ◌++◌, Option, none, some, true, ◌≡◌, refl, sym, ap, ◌∙◌, ◌⊎◌, inl, inr, subst,
  filter, Within, Within-filter, Within-append_left, Within-append_right, ok, arith,
}
use Prim.Native.Nat.{Ordering}
use Prim.Native.Nat.Ordering.{lt, eq, gt}
use leanbun.Base.TreeMap.{
  get, insert, get-insert_cases, get-insert_ne, get-insert_self, IsAscending, insert-IsAscending,
}
use leanbun.Lock.Model.{PackageKey, key_ord, LockedPackage}
use leanbun.Resolver.Model.{Requirement, Candidate, Origin, Selected, request_matches_candidate}
use leanbun.Resolver.Selecting.Defs.{
  Context, Selection, Registry, pinned, is_none_or, eligible, toolchain_agrees,
  candidate_matches_lock, shadow_existing, accept, accept_only, select_new, select_requirement,
}

-- the registry lists each candidate under its own key
abbrev pub IsKeyed : Registry → Type 0
IsKeyed registry =
    (k : PackageKey) (cs : List Candidate)
    → get k registry ≡ some cs
    → (c : Candidate) → Within c cs
    → c.key ≡ k

-- A candidate that may stand for a key.
pub record IsChosen (ctx : Context) (k : PackageKey) (c : Candidate) : Type 0 where
  pub keyed : c.key ≡ k
  pub supplied : (cs : List Candidate) × (get k ctx.registry ≡ some cs) × Within c cs
  pub agrees : toolchain_agrees ctx c ≡ true
  pub at_pin : (p : LockedPackage) → pinned ctx k ≡ some p → candidate_matches_lock c p ≡ true

-- The selection holds a candidate that satisfies the requirement.
pub record Meets (s : Selection) (r : Requirement) : Type 0 where
  pub entry : Selected
  pub holds : get r.key s.selected ≡ some entry
  pub matches : request_matches_candidate r.source entry.candidate ≡ true

pub record Grows (ctx : Context) (s t : Selection) : Type 0 where
  pub keeps :
      (k : PackageKey) (e : Selected) → get k s.selected ≡ some e → get k t.selected ≡ some e
  pub queues : (k : PackageKey) → Within k s.queue → Within k t.queue
  pub ascends : IsAscending s.selected → IsAscending t.selected
  pub fresh :
      (k : PackageKey) (e : Selected)
      → get k t.selected ≡ some e
      → (get k s.selected ≡ some e) ⊎ (Within k t.queue × IsChosen ctx k e.candidate)

pub Grows-refl : (ctx : Context) (s : Selection) → Grows ctx s s
Grows-refl ctx s = record {
  keeps = λ k e h. h;
  queues = λ k h. h;
  ascends = λ h. h;
  fresh = λ k e h. inl h;
}

pub Grows-trans :
    (ctx : Context) {s t u : Selection} → Grows ctx s t → Grows ctx t u → Grows ctx s u
Grows-trans ctx {s} {t} {u} h k = record {
  keeps = λ j e x. k.keeps j e (h.keeps j e x);
  queues = λ j x. k.queues j (h.queues j x);
  ascends = λ x. k.ascends (h.ascends x);
  fresh = λ j e x. elim (k.fresh j e x) [
    | inl old ↦ elim (h.fresh j e old) [
      | inl older ↦ inl older
      | inr (w, c) ↦ inr (k.queues j w, c)
    ]
    | inr new ↦ inr new
  ];
}

pub Meets-keeps :
    (ctx : Context) {s t : Selection} (r : Requirement) → Grows ctx s t → Meets s r → Meets t r
Meets-keeps ctx r g m = record {
  entry = m.entry;
  holds = g.keeps r.key m.entry m.holds;
  matches = m.matches;
}

-- a selection with the same entries and the same queue
same-Grows :
    (ctx : Context) {s t : Selection} → t.selected ≡ s.selected → t.queue ≡ s.queue → Grows ctx s t
same-Grows ctx e q = record {
  keeps = λ k x h. rw e h;
  queues = λ k h. rw q h;
  ascends = λ h. rw e h;
  fresh = λ k x h. inl (rw e at h);
}

shadow_existing_lem :
    (r : Requirement) (origin : Origin) (existing : Selected) (s t : Selection)
    → shadow_existing r origin existing s ≡ ok t
    → (request_matches_candidate r.source existing.candidate ≡ true)
      × (t.selected ≡ s.selected)
      × (t.queue ≡ s.queue)
unfolding shadow_existing
shadow_existing_lem r origin existing s t h = ground arith

accept_lem :
    (ctx : Context) (origin : Origin) (c : Candidate) (s t : Selection)
    → accept ctx origin c s ≡ ok t
    → (toolchain_agrees ctx c ≡ true)
      × (t.selected ≡ insert c.key (record { candidate = c; winner = origin }) s.selected)
      × (t.queue ≡ s.queue ++ c.key ∷ [])
unfolding accept
accept_lem ctx origin c s t h = ground arith

-- what passes the filter satisfies the requirement, and the lock where it pins
eligible_lem :
    (ctx : Context) (r : Requirement) (c : Candidate)
    → eligible ctx r c ≡ true
    → (request_matches_candidate r.source c ≡ true)
      × ((p : LockedPackage) → pinned ctx r.key ≡ some p → candidate_matches_lock c p ≡ true)
unfolding eligible is_none_or
eligible_lem ctx r c h = (ground arith, λ p e. ground arith)

no_metadata :
    (ctx : Context) (r : Requirement) (origin : Origin) (s t : Selection)
    → select_new ctx r origin none s ≡ ok t
    → ⊥
unfolding select_new
no_metadata ctx r origin s t h = cc

module _ (ctx : Context) (keyed : IsKeyed ctx.registry) (r : Requirement) (origin : Origin)
    (s t : Selection) where
  accept-Grows :
      (c : Candidate) (cs : List Candidate)
      → get r.key s.selected ≡ none
      → get r.key ctx.registry ≡ some cs
      → Within c cs
      → eligible ctx r c ≡ true
      → accept ctx origin c s ≡ ok t
      → Grows ctx s t × Meets t r
  accept-Grows c cs new listed within passes h =
      let (agrees, selected, queue) = accept_lem ctx origin c s t h in
      let (matches, at_pin) = eligible_lem ctx r c passes in
      let same : c.key ≡ r.key = keyed r.key cs listed c within in
      let entry : Selected = record { candidate = c; winner = origin } in
      let chosen : IsChosen ctx r.key c = record {
        keyed = same;
        supplied = (cs, listed, within);
        agrees = agrees;
        at_pin = at_pin;
      } in
      (
        record {
          keeps = λ k e x. rw selected (
              get-insert_ne c.key k entry s.selected
                (λ p. cc (x, new, ap (λ j. get j s.selected) (p ∙ same)))
              ∙ x);
          queues = λ k x. rw queue (Within-append_left k s.queue (c.key ∷ []) x);
          ascends = λ x. rw selected (insert-IsAscending c.key entry s.selected x);
          fresh = λ k e x. elim (get-insert_cases c.key k entry s.selected (rw selected at x)) [
            | inl (at, is) ↦ inr (
              rw queue (Within-append_right k s.queue (c.key ∷ []) (inl (sym at))),
              subst (λ (u : Selected). IsChosen ctx k u.candidate) is
                  (subst (λ j. IsChosen ctx j c) (sym (at ∙ same)) chosen),
            )
            | inr old ↦ inl old
          ];
        },
        record {
          entry = entry;
          holds = rw selected (
              subst (λ j. get j (insert c.key entry s.selected) ≡ some entry) same
                (get-insert_self c.key entry s.selected));
          matches = matches;
        },
      )

  accept_only-Grows :
      (cs matching : List Candidate)
      → get r.key s.selected ≡ none
      → get r.key ctx.registry ≡ some cs
      → ((c : Candidate) → Within c matching → (eligible ctx r c ≡ true) × Within c cs)
      → accept_only ctx r origin cs matching s ≡ ok t
      → Grows ctx s t × Meets t r
  unfolding accept_only
  accept_only-Grows cs [] new listed good h = ground arith
  accept_only-Grows cs (c ∷ []) new listed good h =
      let (passes, within) = good c (inl refl) in accept-Grows c cs new listed within passes h
  accept_only-Grows cs (c ∷ d ∷ rest) new listed good h = cc

  -- For a registry that lists each candidate under its own key: a successful call keeps each entry
  -- and the queue, each new entry is chosen for its key and queued, and the requirement is met.
  pub select_requirement-Grows :
      select_requirement ctx r origin s ≡ ok t → Grows ctx s t × Meets t r
  unfolding select_requirement
  select_requirement-Grows h = by_entry (get r.key s.selected) refl h
    where
      by_available :
          (o : Option (List Candidate))
          → get r.key ctx.registry ≡ o
          → get r.key s.selected ≡ none
          → select_new ctx r origin o s ≡ ok t
          → Grows ctx s t × Meets t r
      by_available none e new x = absurd (no_metadata ctx r origin s t x)
      by_available (some cs) e new x =
          accept_only-Grows cs (filter (eligible ctx r) cs) new e
            (λ c w. Within-filter (eligible ctx r) cs c w) (unfold select_new in x)

      by_entry :
          (o : Option Selected)
          → get r.key s.selected ≡ o
          → elim o [
            | some existing ↦ shadow_existing r origin existing s
            | none ↦ select_new ctx r origin (get r.key ctx.registry) s
          ]
            ≡ ok t
          → Grows ctx s t × Meets t r
      by_entry (some existing) e x =
          let (matches, selected, queue) = shadow_existing_lem r origin existing s t x in
          (
            same-Grows ctx selected queue,
            record { entry = existing; holds = rw selected e; matches = matches },
          )
      by_entry none e x = by_available (get r.key ctx.registry) refl e x

-- a registry is keyed when each of its lists is
pub IsKeyed-cons :
    (j : PackageKey) (ds : List Candidate) (registry : Registry)
    → ((c : Candidate) → Within c ds → c.key ≡ j)
    → IsKeyed registry
    → IsKeyed ((j, ds) ∷ registry)
unfolding get
IsKeyed-cons j ds registry here there k cs h c w = by_order (key_ord.cmp k j) refl h
  where
    by_order :
        (r : Ordering)
        → key_ord.cmp k j ≡ r
        → elim r [ eq ↦ some ds | _ ↦ get k registry ] ≡ some cs
        → c.key ≡ k
    by_order lt o x = there k cs x c w
    by_order gt o x = there k cs x c w
    by_order eq o x =
        let same : ds ≡ cs = cc in
        here c (subst (Within c) (sym same) w) ∙ sym (key_ord.eq_of_cmp k j o)
