-- ===== src/Codec/Json.antt =====
-- The values and errors of rust/crates/leanbun-codec/src/lib.rs. A `BTreeMap<String, _>` is its list
-- of entries in key order. An error keeps its position and, for its message, a constructor.
use leanbun.Base.{ℕ, Bool, false, ◌||◌, List, ◌==◌, compare_bytes}
use Prim.Native.Nat.{Ordering}
use leanbun.Base.{bytes_equal}

abbrev pub Bytes : Type 0
Bytes = List ℕ

mutual
  pub data StrictJson : Type 0 where
    null : StrictJson
    bool : Bool → StrictJson
    number : Bytes → StrictJson
    string : Bytes → StrictJson
    array : Items → StrictJson
    object : Fields → StrictJson

  pub data Items : Type 0 where
    no_items : Items
    item : StrictJson → Items → Items

  pub data Fields : Type 0 where
    no_fields : Fields
    field : Bytes → StrictJson → Fields → Fields

pub data Detail : Type 0 where
  trailing_content nesting_limit node_limit expected_value : Detail
  duplicate_key : Bytes → Detail
  unterminated_string not_utf8 control_byte : Detail
  unterminated_escape invalid_low_surrogate lone_low_surrogate invalid_scalar : Detail
  invalid_escape invalid_unicode_escape : Detail
  leading_zero invalid_integer missing_fraction missing_exponent number_not_utf8 : Detail
  invalid_literal : Detail
  expected_byte : ℕ → Detail
  -- the model's own: no counterpart in the program
  out_of_fuel : Detail

pub record JsonError : Type 0 where
  pub position : ℕ
  pub detail : Detail

-- `values.push(value)`
unfoldable pub push_item : Items → StrictJson → Items
push_item no_items v = item v no_items
push_item (item w rest) v = item w (push_item rest v)

-- `values.contains_key(&key)`
unfoldable pub contains_key : Bytes → Fields → Bool
unfolding bytes_equal
contains_key k no_fields = false
contains_key k (field j v rest) = (k == j) || contains_key k rest

-- `values.insert(key, value)` of a BTreeMap
unfoldable pub insert_field : Bytes → StrictJson → Fields → Fields
unfolding compare_bytes
insert_field k v no_fields = field k v no_fields
insert_field k v (field j w rest) =
    let further = field j w (insert_field k v rest) in
    elim (compare_bytes k j) [
      | Ordering.lt ↦ field k v (field j w rest)
      | Ordering.eq ↦ field j v rest
      | Ordering.gt ↦ further
    ]
