-- ===== src/Lake/Projection/Laws.antt =====
-- When the projections are made.
use leanbun.Base.{
  ℕ, suc, Bool, true, false, ◌++◌, if◌then◌else◌, List, [], ◌∷◌, map, some, length, ltb, eqb,
  eqb_iff, ◌≡◌, refl, sym, ap, ◌∙◌, subst, inl, inr, Within, Within-map, ok, err, ◌>>◌, >>=-eq-ok,
  reject_if, reject_if-eq-ok, has_repeat, arith, bytes_equal, Bool-cases, ◌==◌, ==_iff,
}
use leanbun.Base.Membership.{has_difference, has_difference-Within}
use leanbun.Base.TreeMap.{TreeMap, get, insert, get-insert_self, get-insert_ne}
use leanbun.Lock.Model
use leanbun.Lock.Model.{
  Text, PackageKey, key_equal, key_ord, LockedPackage, RequestedSource, ResolvedSource,
}
use leanbun.Lock.Provenance.{PathDecision}
use leanbun.Lock.Decisions.{DecisionSet}
use leanbun.Lock.Decisions.Laws.{DecidesEach}
use leanbun.Lake.Model.{LakeErrorKind}
use leanbun.Lake.Declaration.{Bridged}
use leanbun.Lake.Projection.{
  Metadata, sort_metadata, metadata_map, validate_metadata, find_decision, encode_runtime_source,
  encode_entry, encode_entries, encode_runtime, RuntimeProjection, make_runtime_projection,
}

-- the map keeps a key that it has
metadata_map-keeps :
    (items : List Metadata) (m : TreeMap PackageKey Metadata) (k : PackageKey) (v : Metadata)
    → get k m ≡ some v
    → (w : Metadata) × (get k (metadata_map items m) ≡ some w)
unfolding metadata_map
metadata_map-keeps [] m k v e = (v, e)
metadata_map-keeps (x ∷ items) m k v e = elim (key_equal.discrete k x.key) [
  | yes same ↦
      metadata_map-keeps items (insert x.key x m) k x
        (subst (λ j. get j (insert x.key x m) ≡ some x) (sym same) (get-insert_self x.key x m))
  | no other ↦ metadata_map-keeps items (insert x.key x m) k v (get-insert_ne x.key k x m other ∙ e)
]

metadata_map-has :
    (items : List Metadata) (m : TreeMap PackageKey Metadata) (k : PackageKey)
    → Within k (map (λ (i : Metadata). i.key) items)
    → (v : Metadata) × (get k (metadata_map items m) ≡ some v)
unfolding metadata_map
metadata_map-has [] m k w = absurd w
metadata_map-has (x ∷ items) m k (inl same) =
    metadata_map-keeps items (insert x.key x m) k x
      (subst (λ j. get j (insert x.key x m) ≡ some x) same (get-insert_self x.key x m))
metadata_map-has (x ∷ items) m k (inr w) = metadata_map-has items (insert x.key x m) k w

-- validated metadata has an entry for each package
abbrev HasEach : TreeMap PackageKey Metadata → List LockedPackage → Type 0
HasEach m ps = (p : LockedPackage) → Within p ps → (v : Metadata) × (get p.key m ≡ some v)

validate_metadata-HasEach :
    (lock : Model.Lock) (metadata : List Metadata) (m : TreeMap PackageKey Metadata)
    → validate_metadata lock metadata ≡ ok m
    → HasEach m lock.packages
unfolding validate_metadata
validate_metadata-HasEach lock metadata m h p w =
    let sorted = sort_metadata metadata in
    let supplied = map (λ (i : Metadata). i.key) sorted in
    let locked = map (λ (x : LockedPackage). x.key) lock.packages in
    let repeats = reject_if (has_repeat supplied) LakeErrorKind.duplicate_package in
    let missing = reject_if (has_difference locked supplied) LakeErrorKind.missing_package in
    let extra = reject_if (has_difference supplied locked) LakeErrorKind.extra_package in
    let (u3, t3, is) = >>=-eq-ok (repeats >> missing >> extra) _ h in
    let (u2, t2, none_extra) = >>=-eq-ok (repeats >> missing) (λ _. extra) t3 in
    let (u1, distinct, none_missing) = >>=-eq-ok repeats (λ _. missing) t2 in
    let same : metadata_map sorted [] ≡ m = cc in
    let inside =
      has_difference-Within locked supplied (reject_if-eq-ok _ _ none_missing) p.key
        (Within-map (λ (x : LockedPackage). x.key) p lock.packages w) in
    subst (λ n. (v : Metadata) × (get p.key n ≡ some v)) same
      (metadata_map-has sorted [] p.key inside)

DecidesEach-length :
    (ps : List LockedPackage) (ds : List PathDecision) → DecidesEach ps ds → length ds ≡ length ps
unfolding DecidesEach
DecidesEach-length [] [] h = refl
DecidesEach-length [] (d ∷ ds) h = absurd h
DecidesEach-length (p ∷ ps) [] h = absurd h
DecidesEach-length (p ∷ ps) (d ∷ ds) h = omega (arith, DecidesEach-length ps ds h.1)

find_decision-has :
    (ps : List LockedPackage) (ds : List PathDecision) (p : LockedPackage)
    → DecidesEach ps ds
    → Within p ps
    → (d : PathDecision) × (find_decision p.key ds ≡ some d)
unfolding DecidesEach find_decision
find_decision-has [] ds p h w = absurd w
find_decision-has (q ∷ ps) [] p h w = absurd h
find_decision-has (q ∷ ps) (d ∷ ds) p h w = elim (Bool-cases (d.package_key == p.key)) [
  | inl found ↦ (d, rw found refl)
  | inr other ↦ let (e, at) = find_decision-has ps ds p h.1 (elsewhere w other) in (e, rw other at)
]
  where
    elsewhere : Within p (q ∷ ps) → (d.package_key == p.key) ≡ false → Within p ps
    elsewhere (inl same) other = absurd (
        distinct other
          ((==_iff d.package_key p.key).1 (h.0.key ∙ ap (λ (x : LockedPackage). x.key) same)))
      where
        distinct : {b : Bool} → b ≡ false → b ≡ true → ⊥
        distinct f t = cc
    elsewhere (inr v) other = v

returns : {A : Type 0} → Bridged A → Bool
returns (ok a) = true
returns (err e) = false

value_of : {A : Type 0} (made : Bridged A) → returns made ≡ true → (a : A) × (made ≡ ok a)
unfolding returns
value_of (ok a) h = (a, refl)
value_of (err e) h = cc

module _ (m : TreeMap PackageKey Metadata) (set : DecisionSet) where
  -- a package with metadata and a decision is written
  encode_entry-total :
      (p : LockedPackage) (v : Metadata) (d : PathDecision)
      → get p.key m ≡ some v
      → find_decision p.key set.decisions ≡ some d
      → (text : Text) × (encode_entry m (some set) true p ≡ ok text)
  unfolding encode_entry encode_runtime_source returns
  encode_entry-total p v d has found =
      value_of _ (rw (has, found, encode_entry, encode_runtime_source) refl)

  encode_entries-total :
      (ps : List LockedPackage) (index : ℕ)
      → ((p : LockedPackage)
          → Within p ps
          → (text : Text) × (encode_entry m (some set) true p ≡ ok text))
      → (text : Text) × (encode_entries m (some set) true index ps ≡ ok text)
  unfolding encode_entries
  encode_entries-total [] index h = ([], refl)
  encode_entries-total (p ∷ ps) index h =
      let (entry, e) = h p (inl refl) in
      let (rest, r) = encode_entries-total ps (suc index) (λ q w. h q (inr w)) in
      ((if ltb 0 index then b',' ∷ [] else []) ++ entry ++ rest, rw (e, r) refl)

-- Where each package of the lock has its decision and the metadata is accepted for the lock, the runtime
-- projection is made: none of the errors of its own occurs.
pub make_runtime_projection-total :
    (lock : Model.Lock) (set : DecisionSet) (metadata : List Metadata)
    (m : TreeMap PackageKey Metadata)
    → DecidesEach lock.packages set.decisions
    → validate_metadata lock metadata ≡ ok m
    → (r : RuntimeProjection) × (make_runtime_projection lock set metadata ≡ ok r)
unfolding make_runtime_projection encode_runtime
make_runtime_projection-total lock set metadata m decides accepted =
    let (entries, e) = encode_entries-total m set lock.packages 0 (λ p w.
      let (v, has) = validate_metadata-HasEach lock metadata m accepted p w in
      let (d, found) = find_decision-has lock.packages set.decisions p decides w in
      encode_entry-total m set p v d has found) in
    let counted : eqb (length set.decisions) (length lock.packages) ≡ true =
      (eqb_iff _ _).1 (DecidesEach-length lock.packages set.decisions decides) in
    rw (accepted, counted, e) (_, refl)
