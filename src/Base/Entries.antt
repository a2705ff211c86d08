-- ===== src/Base/Entries.antt =====
-- The entries of a `BTreeMap` as members of its list.
use Prim.Native.Nat.{Ordering}
use Prim.Native.Nat.Ordering.{lt, eq, gt}
use mathlib.Core.Path.{◌≡◌, refl, ap, sym, ◌∙◌, subst}
use mathlib.Core.Logic.{inl, inr}
use mathlib.Core.Option.{some}
use mathlib.Core.List.{[], ◌∷◌}
use leanbun.Base.Lists.{Within}
use leanbun.Base.Order.{Ord}
use leanbun.Base.TreeMap.{TreeMap, get, Above, IsAscending}

module _ {K V : Type 0} ⦃o : Ord K⦄ where
  -- an entry that is read is in the map
  pub get-Within : (k : K) (v : V) (m : TreeMap K V) → get k m ≡ some v → Within (k, v) m
  unfolding get
  get-Within k v [] h = cc
  get-Within k v ((j, w) ∷ m) h = by_order (o.cmp k j) refl (get-Within k v m) h
    where
      by_order :
          (r : Ordering)
          → o.cmp k j ≡ r
          → (get k m ≡ some v → Within (k, v) m)
          → elim r [ eq ↦ some w | _ ↦ get k m ] ≡ some v
          → Within (k, v) ((j, w) ∷ m)
      by_order lt e ih x = inr (ih x)
      by_order gt e ih x = inr (ih x)
      by_order eq e ih x = inl (cc (o.eq_of_cmp k j e, x))

  Above-Within : (a k : K) (v : V) (m : TreeMap K V) → Above a m → Within (k, v) m → o.cmp a k ≡ lt
  Above-Within a k v [] h w = absurd w
  Above-Within a k v ((j, u) ∷ m) h (inl e) = subst (λ (p : K × V). o.cmp a p.0 ≡ lt) e h.0
  Above-Within a k v ((j, u) ∷ m) h (inr w) = Above-Within a k v m h.1 w

  -- and in an ascending map an entry is what is read
  pub Within-get :
      (k : K) (v : V) (m : TreeMap K V) → IsAscending m → Within (k, v) m → get k m ≡ some v
  unfolding get
  Within-get k v [] h w = absurd w
  Within-get k v ((j, u) ∷ m) h (inl e) =
      let (same, value) = parts (j, u) (k, v) e in
      by_head (o.cmp k j) (subst (λ i. o.cmp k i ≡ eq) (sym same) (o.cmp_refl k)) ∙ ap some value
    where
      by_head : (r : Ordering) → r ≡ eq → elim r [ eq ↦ some u | _ ↦ get k m ] ≡ some u
      by_head lt x = cc
      by_head gt x = cc
      by_head eq x = refl

      parts : (a b : K × V) → a ≡ b → (a.0 ≡ b.0) × (a.1 ≡ b.1)
      parts a b x = (ap (λ p. p.0) x, ap (λ p. p.1) x)
  Within-get k v ((j, u) ∷ m) h (inr w) =
      let below = Above-Within j k v m h.0 w in
      by_order (o.cmp k j) refl below (Within-get k v m h.1 w)
    where
      by_order :
          (r : Ordering)
          → o.cmp k j ≡ r
          → o.cmp j k ≡ lt
          → get k m ≡ some v
          → elim r [ eq ↦ some u | _ ↦ get k m ] ≡ some v
      by_order lt e b x = x
      by_order gt e b x = x
      by_order eq e b x = cc (o.eq_of_cmp k j e, o.cmp_refl k)
