-- ===== src/Codec/Limits/Objects.antt =====
-- The same for objects, whose keys are also told apart and kept in order.
use leanbun.Base.{ℕ, zero, suc, ◌+◌, ◌≤◌, ◌<◌, ◌≡◌, false, length, arith}
use leanbun.Codec.Json.{Bytes, StrictJson, Fields, object, no_fields, insert_field, contains_key}
use leanbun.Codec.Parser.{
  Parser, Action, pure, fail, object_loop, parse_object, max_json_depth, max_json_nodes,
}
use leanbun.Codec.Ensures.{
  Ensures, holds, fails, Ensures-bind, Ensures-imp, Ensures-if_at, Progress-trans, Reads,
  Reads-trans,
}
use leanbun.Codec.Lexical.{skip_whitespace-Reads, take_if-Reads, consume-Takes, parse_string-Takes}
use leanbun.Codec.Shape.{
  size, size_fields, nesting, nesting_fields, HasSortedKeys, IsSorted, size-insert_field,
  nesting-insert_field, insert_field-IsSorted,
}
use leanbun.Codec.Limits.{Parsed, Either-Reads, Inner}

module _ (depth : ℕ) (value : Action StrictJson) (inner : Inner depth value) where
  close_object :
      (key : Bytes) (values : Fields) (v : StrictJson) {o p q t : Parser}
      → contains_key key values ≡ false
      → nesting_fields values + depth ≤ max_json_depth
      → IsSorted values
      → Reads o p
      → Parsed (suc depth) 0 p v q
      → Reads q t
      → Parsed depth (suc (size_fields values)) o (object (insert_field key v values)) t
  unfolding size nesting HasSortedKeys
  close_object key values v fresh n s before h r = record {
    progress = Progress-trans before.progress (Progress-trans h.progress r.progress);
    takes = omega (arith, before.reads, h.takes, r.reads);
    counted =
        omega
          (arith, size-insert_field key v values fresh, before.same_nodes, h.counted, r.same_nodes);
    bounded = omega (arith, h.bounded, r.same_nodes);
    nested = omega (arith, nesting-insert_field key v values fresh, h.nested);
    sorted = insert_field-IsSorted key v values fresh h.sorted s;
  }

  next_field :
      (key : Bytes) (values : Fields) (v : StrictJson) {o p q t u : Parser} {w : StrictJson}
      → contains_key key values ≡ false
      → Reads o p
      → Parsed (suc depth) 0 p v q
      → Reads q t
      → Parsed depth (suc (size_fields (insert_field key v values))) t w u
      → Parsed depth (suc (size_fields values)) o w u
  next_field key values v fresh before h r k = record {
    progress =
        Progress-trans before.progress
          (Progress-trans h.progress (Progress-trans r.progress k.progress));
    takes = omega (arith, before.reads, h.takes, r.reads, k.takes);
    counted = omega (
      arith,
      size-insert_field key v values fresh,
      before.same_nodes,
      h.counted,
      r.same_nodes,
      k.counted,
    );
    bounded = k.bounded;
    nested = k.nested;
    sorted = k.sorted;
  }

  object_loop-Parsed :
      (fuel : ℕ) (values : Fields) (p : Parser)
      → length p.rest < fuel
      → nesting_fields values + depth ≤ max_json_depth
      → IsSorted values
      → Ensures (Parsed depth (suc (size_fields values)) p) (object_loop value fuel values p)
  unfolding object_loop pure fail
  object_loop-Parsed zero values p f n s = absurd (omega arith)
  object_loop-Parsed (suc fuel) values p f n s =
      Ensures-bind _ _ p (skip_whitespace-Reads p) λ _ a ha.
        Ensures-bind _ _ a (parse_string-Takes a) λ key b hb.
          Ensures-if_at (contains_key key values) _ _ b (λ _. fails (cc))
            λ fresh. Ensures-bind _ _ b (skip_whitespace-Reads b) λ _ c hc.
              Ensures-bind _ _ c (consume-Takes b':' c) λ _ d hd.
                let before =
                  Reads-trans ha (Reads-trans hb.reads_on (Reads-trans hc hd.reads_on)) in
                Ensures-bind _ _ d (inner d) λ v q h.
                  Ensures-bind _ _ q (skip_whitespace-Reads q) λ _ r k.
                    Ensures-bind _ _ r (take_if-Reads b'}' r) λ done t l.
                      let behind = Reads-trans k (Either-Reads done l) in
                      Ensures-if_at done _ _ t
                        (λ _. holds (close_object key values v fresh n s before h behind))
                        λ _. Ensures-bind _ _ t (consume-Takes b',' t) λ _ u m.
                          Ensures-imp (Parsed depth (suc (size_fields values)) p)
                            (object_loop-Parsed fuel (insert_field key v values) u
                              (omega (arith, before.reads, h.takes, behind.reads, m.takes))
                              (omega (arith, nesting-insert_field key v values fresh, h.nested))
                              (insert_field-IsSorted key v values fresh h.sorted s))
                            λ w x y. holds (
                              next_field key values v fresh before h (Reads-trans behind m.reads_on)
                                y)

  pub parse_object-Parsed :
      (p : Parser)
      → p.nodes ≤ max_json_nodes
      → depth ≤ max_json_depth
      → Ensures (Parsed depth 1 p) (parse_object value p)
  unfolding parse_object pure size nesting HasSortedKeys
  parse_object-Parsed p b d = Ensures-bind _ _ p (consume-Takes b'{' p) λ _ q h.
      Ensures-bind _ _ q (skip_whitespace-Reads q) λ _ r k.
        Ensures-bind _ _ r (take_if-Reads b'}' r) λ empty t l.
          let behind = Reads-trans h.reads_on (Reads-trans k (Either-Reads empty l)) in
          Ensures-if_at empty _ _ t
            (λ _. holds (record {
              progress = behind.progress;
              takes = omega (arith, h.takes, k.reads, (Either-Reads empty l).reads);
              counted = omega (arith, behind.same_nodes);
              bounded = omega (arith, behind.same_nodes);
              nested = omega arith;
              sorted = tt;
            }))
            λ _.
              Ensures-imp (Parsed depth 1 p)
                (object_loop-Parsed (suc (length t.rest)) no_fields t (omega arith) (omega arith)
                  tt)
                λ w u y. holds (record {
                  progress = Progress-trans behind.progress y.progress;
                  takes = omega (arith, behind.reads, y.takes);
                  counted = omega (arith, behind.same_nodes, y.counted);
                  bounded = y.bounded;
                  nested = y.nested;
                  sorted = y.sorted;
                })
