-- ===== src/Codec/Limits.antt =====
-- What the parser of arrays guarantees of a value, given the same of the values within.
pub mod Objects
pub mod Document
use leanbun.Base.{
  ℕ, zero, suc, ◌+◌, ◌≤◌, ◌<◌, ◌≡◌, ◌≢◌, refl, Bool, true, false, ◌||◌, List, [], ◌∷◌, Option, none,
  some, Result, ok, err, length, arith, if◌then◌else◌, eqb, ltb, Bool-cases, inl, inr, le_of_ltb,
}
use leanbun.Codec.Json.{
  Bytes, StrictJson, Items, Fields, null, bool, number, string, array, object, no_items, no_fields,
  JsonError, Detail, out_of_fuel, push_item, insert_field, contains_key,
}
use leanbun.Codec.Text.{is_digit}
use leanbun.Codec.Parser.{
  Parser, Action, ◌>>=◌, ◌>>◌, pure, fail, peek, skip_whitespace, take_if, consume, literal,
  parse_string, parse_number, array_loop, parse_array, object_loop, parse_object, dispatch,
  enter_value, parse_value, parse_strict_json, max_json_depth, max_json_nodes,
}
use leanbun.Codec.Ensures.{
  Ensures, holds, fails, Ensures-bind, Ensures-imp, Ensures-if, Ensures-if_at, Progress,
  Progress-refl, Progress-trans, Reads, Takes, Reads-refl, Reads-trans, Takes-Reads, Reads-Takes,
}
use leanbun.Codec.Lexical.{
  skip_whitespace-Reads, take_if-Reads, consume-Takes, parse_string-Takes, parse_number-Takes,
}
use leanbun.Codec.Shape.{
  size, size_items, size_fields, nesting, nesting_items, nesting_fields, HasSortedKeys, AllSorted,
  IsSorted, size-push_item, nesting-push_item, push_item-AllSorted, size-insert_field,
  nesting-insert_field, insert_field-IsSorted,
}

-- What `parse_value` at a depth promises of its value and of the parser behind it; `fresh` is the
-- count of nodes that the caller has already entered for this value.
pub record Parsed (depth fresh : ℕ) (p : Parser) (v : StrictJson) (q : Parser) : Type 0 where
  pub progress : Progress p q
  pub open progress use *
  pub takes : length q.rest < length p.rest
  pub counted : q.nodes + fresh ≡ p.nodes + size v
  pub bounded : q.nodes ≤ max_json_nodes
  pub nested : nesting v + depth ≤ max_json_depth
  pub sorted : HasSortedKeys v

-- whether the byte was there or not, the parser has read on
pub Either-Reads :
    {p q : Parser} (taken : Bool) → (if taken then Takes p q else Reads p q) → Reads p q
Either-Reads true h = h.reads_on
Either-Reads false h = h

-- The promise of the `parse_value(depth + 1)` that an array or object at `depth` calls.
abbrev pub Inner : ℕ → Action StrictJson → Type 0
Inner depth value = (p : Parser) → Ensures (Parsed (suc depth) 0 p) (value p)

module _ (depth : ℕ) (value : Action StrictJson) (inner : Inner depth value) where
  close_array :
      (values : Items) (v : StrictJson) {p q t : Parser}
      → nesting_items values + depth ≤ max_json_depth
      → AllSorted values
      → Parsed (suc depth) 0 p v q
      → Reads q t
      → Parsed depth (suc (size_items values)) p (array (push_item values v)) t
  unfolding size nesting HasSortedKeys
  close_array values v n s h r = record {
    progress = Progress-trans h.progress r.progress;
    takes = omega (arith, h.takes, r.reads);
    counted = omega (arith, size-push_item values v, h.counted, r.same_nodes);
    bounded = omega (arith, h.bounded, r.same_nodes);
    nested = omega (arith, nesting-push_item values v, h.nested);
    sorted = push_item-AllSorted values v s h.sorted;
  }

  next_item :
      (values : Items) (v : StrictJson) {p q t u : Parser} {w : StrictJson}
      → Parsed (suc depth) 0 p v q
      → Reads q t
      → Parsed depth (suc (size_items (push_item values v))) t w u
      → Parsed depth (suc (size_items values)) p w u
  next_item values v h r k = record {
    progress = Progress-trans h.progress (Progress-trans r.progress k.progress);
    takes = omega (arith, h.takes, r.reads, k.takes);
    counted = omega (arith, size-push_item values v, h.counted, r.same_nodes, k.counted);
    bounded = k.bounded;
    nested = k.nested;
    sorted = k.sorted;
  }

  array_loop-Parsed :
      (fuel : ℕ) (values : Items) (p : Parser)
      → length p.rest < fuel
      → nesting_items values + depth ≤ max_json_depth
      → AllSorted values
      → Ensures (Parsed depth (suc (size_items values)) p) (array_loop value fuel values p)
  unfolding array_loop pure fail
  array_loop-Parsed zero values p f n s = absurd (omega arith)
  array_loop-Parsed (suc fuel) values p f n s = Ensures-bind _ _ p (inner p) λ v q h.
      Ensures-bind _ _ q (skip_whitespace-Reads q) λ _ r k.
        Ensures-bind _ _ r (take_if-Reads b']' r) λ done t l.
          let behind = Reads-trans k (Either-Reads done l) in
          Ensures-if_at done _ _ t (λ _. holds (close_array values v n s h behind))
            λ _. Ensures-bind _ _ t (consume-Takes b',' t) λ _ u m.
              Ensures-imp (Parsed depth (suc (size_items values)) p)
                (array_loop-Parsed fuel (push_item values v) u
                  (omega (arith, h.takes, behind.reads, m.takes))
                  (omega (arith, nesting-push_item values v, h.nested))
                  (push_item-AllSorted values v s h.sorted))
                λ w x y. holds (next_item values v h (Reads-trans behind m.reads_on) y)

  pub parse_array-Parsed :
      (p : Parser)
      → p.nodes ≤ max_json_nodes
      → depth ≤ max_json_depth
      → Ensures (Parsed depth 1 p) (parse_array value p)
  unfolding parse_array pure size nesting HasSortedKeys
  parse_array-Parsed p b d = Ensures-bind _ _ p (consume-Takes b'[' p) λ _ q h.
      Ensures-bind _ _ q (skip_whitespace-Reads q) λ _ r k.
        Ensures-bind _ _ r (take_if-Reads b']' r) λ empty t l.
          let behind = Reads-trans h.reads_on (Reads-trans k (Either-Reads empty l)) in
          Ensures-if_at empty _ _ t
            (λ _. holds (record {
              progress = behind.progress;
              takes = omega (arith, h.takes, k.reads, (Either-Reads empty l).reads);
              counted = omega (arith, behind.same_nodes);
              bounded = omega (arith, behind.same_nodes);
              nested = omega arith;
              sorted = tt;
            }))
            λ _.
              Ensures-imp (Parsed depth 1 p)
                (array_loop-Parsed (suc (length t.rest)) no_items t (omega arith) (omega arith) tt)
                λ w u y. holds (record {
                  progress = Progress-trans behind.progress y.progress;
                  takes = omega (arith, behind.reads, y.takes);
                  counted = omega (arith, behind.same_nodes, y.counted);
                  bounded = y.bounded;
                  nested = y.nested;
                  sorted = y.sorted;
                })
