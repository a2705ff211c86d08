-- ===== src/Codec/Shape.antt =====
-- The measures of a JSON value, and the order of the keys of its objects.
use Prim.Native.Nat.{Ordering}
use leanbun.Base.{
  ℕ, suc, ◌+◌, ◌≡◌, arith, max, ◌≢◌, false, bytes_equal, compare_bytes, compare_bytes-gt,
  compare_bytes-eq,
}
use leanbun.Codec.Json.{
  Bytes, StrictJson, Items, Fields, array, object, no_items, item, no_fields, field, push_item,
  insert_field, contains_key,
}

-- How many values a value consists of.
unfoldable mutual
  pub size : StrictJson → ℕ
  size (array xs) = suc (size_items xs)
  size (object fs) = suc (size_fields fs)
  size _ = 1

  pub size_items : Items → ℕ
  size_items no_items = 0
  size_items (item v xs) = size v + size_items xs

  pub size_fields : Fields → ℕ
  size_fields no_fields = 0
  size_fields (field k v fs) = size v + size_fields fs

-- How many arrays and objects stand round the innermost value.
unfoldable mutual
  pub nesting : StrictJson → ℕ
  nesting (array xs) = nesting_items xs
  nesting (object fs) = nesting_fields fs
  nesting _ = 0

  pub nesting_items : Items → ℕ
  nesting_items no_items = 0
  nesting_items (item v xs) = max (suc (nesting v)) (nesting_items xs)

  pub nesting_fields : Fields → ℕ
  nesting_fields no_fields = 0
  nesting_fields (field k v fs) = max (suc (nesting v)) (nesting_fields fs)

-- The next key is greater.
abbrev pub Before : Bytes → Fields → Type 0
Before k no_fields = Unit
Before k (field j v fs) = compare_bytes k j ≡ Ordering.lt

-- The keys of every object within the value ascend, so that none occurs twice.
unfoldable mutual
  pub HasSortedKeys : StrictJson → Type 0
  HasSortedKeys (array xs) = AllSorted xs
  HasSortedKeys (object fs) = IsSorted fs
  HasSortedKeys _ = Unit

  pub AllSorted : Items → Type 0
  AllSorted no_items = Unit
  AllSorted (item v xs) = HasSortedKeys v × AllSorted xs

  pub IsSorted : Fields → Type 0
  IsSorted no_fields = Unit
  IsSorted (field k v fs) = Before k fs × HasSortedKeys v × IsSorted fs

pub size-push_item :
    (xs : Items) (v : StrictJson) → size_items (push_item xs v) ≡ size_items xs + size v
unfolding push_item size
size-push_item no_items v = omega arith
size-push_item (item w xs) v = omega (arith, size-push_item xs v)

pub nesting-push_item :
    (xs : Items) (v : StrictJson)
    → nesting_items (push_item xs v) ≡ max (nesting_items xs) (suc (nesting v))
unfolding push_item nesting
nesting-push_item no_items v = omega arith
nesting-push_item (item w xs) v = omega (arith, nesting-push_item xs v)

pub push_item-AllSorted :
    (xs : Items) (v : StrictJson) → AllSorted xs → HasSortedKeys v → AllSorted (push_item xs v)
unfolding push_item HasSortedKeys
push_item-AllSorted no_items v h k = (k, tt)
push_item-AllSorted (item w xs) v h k = (h.0, push_item-AllSorted xs v h.1 k)

-- A key that is not there compares unequal to each that is.
contains_key_head :
    (k j : Bytes) (w : StrictJson) (fs : Fields)
    → contains_key k (field j w fs) ≡ false
    → (compare_bytes k j ≢ Ordering.eq) × (contains_key k fs ≡ false)
unfolding contains_key
contains_key_head k j w fs h = (λ e. ground (arith, compare_bytes-eq k j), ground arith)

abbrev Absent : Bytes → Fields → Type 0
Absent k fs = contains_key k fs ≡ false

pub size-insert_field :
    (k : Bytes) (v : StrictJson) (fs : Fields)
    → Absent k fs
    → size_fields (insert_field k v fs) ≡ size_fields fs + size v
unfolding insert_field size
size-insert_field k v no_fields h = omega arith
size-insert_field k v (field j w fs) h =
    let (ne, absent) = contains_key_head k j w fs h in
    ground (arith, size-insert_field k v fs absent)

pub nesting-insert_field :
    (k : Bytes) (v : StrictJson) (fs : Fields)
    → Absent k fs
    → nesting_fields (insert_field k v fs) ≡ max (nesting_fields fs) (suc (nesting v))
unfolding insert_field nesting
nesting-insert_field k v no_fields h = omega arith
nesting-insert_field k v (field j w fs) h =
    let (ne, absent) = contains_key_head k j w fs h in
    ground (arith, nesting-insert_field k v fs absent)

Before-insert_field :
    (j k : Bytes) (v : StrictJson) (fs : Fields)
    → compare_bytes j k ≡ Ordering.lt
    → Before j fs
    → Before j (insert_field k v fs)
unfolding insert_field
Before-insert_field j k v no_fields h b = h
Before-insert_field j k v (field i w fs) h b = ground arith

pub insert_field-IsSorted :
    (k : Bytes) (v : StrictJson) (fs : Fields)
    → Absent k fs
    → HasSortedKeys v
    → IsSorted fs
    → IsSorted (insert_field k v fs)
unfolding insert_field HasSortedKeys
insert_field-IsSorted k v no_fields h s fine = (tt, s, tt)
insert_field-IsSorted k v (field j w fs) h s fine =
    let (ne, absent) = contains_key_head k j w fs h in
    ground (
      arith,
      insert_field-IsSorted k v fs absent s,
      compare_bytes-gt k j,
      Before-insert_field j k v fs,
    )
