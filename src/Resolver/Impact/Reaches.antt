-- ===== src/Resolver/Impact/Reaches.antt =====
-- The impact closures against reachability in the graph of dependencies.
use leanbun.Base.{
  ℕ, zero, suc, true, List, [], ◌∷◌, ◌++◌, some, ◌≡◌, refl, sym, ap, subst, Option, none, ◌⊎◌, ◌↔◌,
  Within-filter, Within-filter_inverse, inl, inr, Within, Within-append_left, Within-append_right,
  Within-append_cases, Bool-cases,
}
use leanbun.Base.TreeMap.{
  TreeMap, contains_key, insert, get, contains_key-insert_self, contains_key-insert_keeps,
  contains_key-insert_cases,
}
use leanbun.Lock.Model.{PackageKey, key_ord}
use leanbun.Resolver.Impact.{KeySet, known, children, close, impact_closure}
use leanbun.Resolver.Impact.Ending.{impact_closure_ends}

module _ {V : Type 0} (deps : V → List PackageKey) (m : TreeMap PackageKey V) where
  -- a target that the map has, or a dependency, which the map has, of a key that is reached
  pub data Reaches (targets : List PackageKey) : PackageKey → Type 0 where
    target : {k : PackageKey} → Within k targets → contains_key k m ≡ true → Reaches targets k
    next :
        {k c : PackageKey} (entry : V)
        → Reaches targets k
        → get k m ≡ some entry
        → Within c (deps entry)
        → contains_key c m ≡ true
        → Reaches targets c

  Within-known :
      (keys : List PackageKey) (k : PackageKey)
      → Within k (known deps m keys) ↔ (Within k keys × (contains_key k m ≡ true))
  unfolding known
  Within-known keys k = (
    λ w. let (has, v) = Within-filter (λ j. contains_key j m) keys k w in (v, has),
    λ (v, has). Within-filter_inverse (λ j. contains_key j m) keys k has v,
  )

  target_known :
      (targets : List PackageKey) (k : PackageKey)
      → Within k (known deps m targets)
      → Reaches targets k
  target_known targets k w = let (v, has) = (Within-known targets k).0 w in target v has

  next_child :
      (targets : List PackageKey) (k c : PackageKey)
      → Reaches targets k
      → Within c (children deps m k)
      → Reaches targets c
  unfolding children
  next_child targets k c r w = by_entry (get k m) refl w
    where
      by_entry :
          (found : Option V)
          → get k m ≡ found
          → Within c (elim found [ none ↦ [] | some p ↦ known deps m (deps p) ])
          → Reaches targets c
      by_entry none e v = absurd v
      by_entry (some p) e v = let (d, has) = (Within-known (deps p) c).0 v in next p r e d has

  Within-children :
      (k c : PackageKey) (entry : V)
      → get k m ≡ some entry
      → Within c (deps entry)
      → contains_key c m ≡ true
      → Within c (children deps m k)
  unfolding children
  Within-children k c entry e d has =
      let same : children deps m k ≡ known deps m (deps entry) =
        ap (λ o. elim o [ none ↦ [] | some p ↦ known deps m (deps p) ]) e in
      subst (Within c) (sym same) ((Within-known (deps entry) c).1 (d, has))

  -- what holds at the head of the loop
  record IsClosing (targets queue : List PackageKey) (impact : KeySet) : Type 0 where
    queue_reached : (k : PackageKey) → Within k queue → Reaches targets k
    impact_reached : (k : PackageKey) → contains_key k impact ≡ true → Reaches targets k
    starts :
        (k : PackageKey)
        → Within k (known deps m targets)
        → (contains_key k impact ≡ true) ⊎ Within k queue
    expands :
        (k c : PackageKey)
        → contains_key k impact ≡ true
        → Within c (children deps m k)
        → (contains_key c impact ≡ true) ⊎ Within c queue

  -- a key that is in already goes off the queue
  IsClosing-skip :
      (targets rest : List PackageKey) (key : PackageKey) (impact : KeySet)
      → contains_key key impact ≡ true
      → IsClosing targets (key ∷ rest) impact
      → IsClosing targets rest impact
  IsClosing-skip targets rest key impact old h = record {
    queue_reached = λ k w. h.queue_reached k (inr w);
    impact_reached = h.impact_reached;
    starts = λ k w. off k (h.starts k w);
    expands = λ k c i w. off c (h.expands k c i w);
  }
    where
      off :
          (k : PackageKey)
          → (contains_key k impact ≡ true) ⊎ Within k (key ∷ rest)
          → (contains_key k impact ≡ true) ⊎ Within k rest
      off k (inl i) = inl i
      off k (inr (inl e)) = inl (subst (λ j. contains_key j impact ≡ true) e old)
      off k (inr (inr w)) = inr w

  -- a new key comes in, and its children are queued
  IsClosing-enter :
      (targets rest : List PackageKey) (key : PackageKey) (impact : KeySet)
      → IsClosing targets (key ∷ rest) impact
      → IsClosing targets (rest ++ children deps m key) (insert key tt impact)
  IsClosing-enter targets rest key impact h = record {
    queue_reached = λ k w. elim (Within-append_cases k rest (children deps m key) w) [
      | inl v ↦ h.queue_reached k (inr v)
      | inr v ↦ next_child targets key k (h.queue_reached key (inl refl)) v
    ];
    impact_reached = λ k i. elim (contains_key-insert_cases key k tt impact i) [
      | inl same ↦ h.queue_reached k (inl (sym same))
      | inr old ↦ h.impact_reached k old
    ];
    starts = λ k w. moved k (h.starts k w);
    expands = λ k c i w. elim (contains_key-insert_cases key k tt impact i) [
      | inl same ↦ inr (
          Within-append_right c rest (children deps m key)
            (subst (λ j. Within c (children deps m j)) same w))
      | inr old ↦ moved c (h.expands k c old w)
    ];
  }
    where
      moved :
          (k : PackageKey)
          → (contains_key k impact ≡ true) ⊎ Within k (key ∷ rest)
          → (contains_key k (insert key tt impact) ≡ true) ⊎ Within k (rest ++ children deps m key)
      moved k (inl i) = inl (contains_key-insert_keeps key k tt impact i)
      moved k (inr (inl e)) = inl (
          subst (λ j. contains_key j (insert key tt impact) ≡ true) e
            (contains_key-insert_self key tt impact))
      moved k (inr (inr w)) = inr (Within-append_left k rest (children deps m key) w)

  close-IsClosing :
      (fuel : ℕ) (targets queue : List PackageKey) (impact result : KeySet)
      → IsClosing targets queue impact
      → close deps m fuel queue impact ≡ some result
      → IsClosing targets [] result
  unfolding close
  close-IsClosing zero targets queue impact result h e = cc
  close-IsClosing (suc fuel) targets [] impact result h e =
      let same : impact ≡ result = cc in subst (IsClosing targets []) same h
  close-IsClosing (suc fuel) targets (key ∷ rest) impact result h e =
      elim (Bool-cases (contains_key key impact)) [
        | inl old ↦
            close-IsClosing fuel targets rest impact result
              (IsClosing-skip targets rest key impact old h) (rw (old, close) at e)
        | inr new ↦
            close-IsClosing fuel targets (rest ++ children deps m key) (insert key tt impact) result
              (IsClosing-enter targets rest key impact h) (rw (new, close) at e)
      ]

  reached_in :
      (targets : List PackageKey) (result : KeySet)
      → IsClosing targets [] result
      → (k : PackageKey) → Reaches targets k
      → contains_key k result ≡ true
  reached_in targets result h k (target w has) =
      elim (h.starts k ((Within-known targets k).1 (w, has))) [ inl i ↦ i | inr v ↦ absurd v ]
  reached_in targets result h k (next {k = j} entry r e d has) =
      elim (h.expands j k (reached_in targets result h j r) (Within-children j k entry e d has)) [
        | inl i ↦ i
        | inr v ↦ absurd v
      ]

  starts-IsClosing : (targets : List PackageKey) → IsClosing targets (known deps m targets) []
  unfolding contains_key get
  starts-IsClosing targets = record {
    queue_reached = λ k w. target_known targets k w;
    impact_reached = λ k i. cc;
    starts = λ k w. inr w;
    expands = λ k c i w. cc;
  }

  -- The impact closure of any map and targets is computed, and a key is in it exactly when the targets
  -- reach it: it is a target that the map has, or the map has it and it is among the dependencies that
  -- the map gives a key that they reach.
  pub impact_closure-Reaches :
      (targets : List PackageKey)
      → (result : KeySet) × (impact_closure deps m targets ≡ some result)
        × ((k : PackageKey) → (contains_key k result ≡ true) ↔ Reaches targets k)
  unfolding impact_closure
  impact_closure-Reaches targets =
      let (result, e) = impact_closure_ends deps m targets in
      let closed =
        close-IsClosing _ targets (known deps m targets) [] result (starts-IsClosing targets) e in
      (result, e, λ k. (closed.impact_reached k, reached_in targets result closed k))
