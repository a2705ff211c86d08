-- ===== src/Codec/Limits/Document.antt =====
-- What a successful parse guarantees, and that the parser always ends.
use leanbun.Base.{
  ℕ, zero, suc, ◌+◌, ◌≤◌, ◌<◌, ◌≡◌, ◌≢◌, refl, true, false, ◌||◌, [], ◌∷◌, ok, err, length, arith,
  eqb, ltb, le_of_ltb, Result, eqb_iff, subst, ◌⊎◌, inl, inr,
}
use leanbun.Codec.Json.{Bytes, StrictJson, null, bool, number, string, JsonError, out_of_fuel}
use leanbun.Codec.Text.{is_digit}
use leanbun.Codec.Parser.{
  Parser, Action, pure, fail, peek, dispatch, enter_value, parse_value, document, value_of,
  parse_strict_json, max_json_depth, max_json_nodes,
}
use leanbun.Codec.Ensures.{
  Ensures, holds, fails, Ensures-bind, Ensures-imp, Ensures-if, Reads, Takes,
}
use leanbun.Codec.Lexical.{
  skip_whitespace-Reads, literal-Takes, parse_string-Takes, parse_number-Takes,
}
use leanbun.Codec.Shape.{size, nesting, HasSortedKeys}
use leanbun.Codec.Limits.{Parsed, Inner, parse_array-Parsed}
use leanbun.Codec.Limits.Objects.{parse_object-Parsed}

module _ (depth : ℕ) (value : Action StrictJson) (inner : Inner depth value) where
  -- a value with nothing within
  leaf :
      (v : StrictJson) {p q : Parser}
      → size v ≡ 1
      → nesting v ≡ 0
      → HasSortedKeys v
      → p.nodes ≤ max_json_nodes
      → depth ≤ max_json_depth
      → Takes p q
      → Parsed depth 1 p v q
  leaf v sz ns s b d r = record {
    progress = r.progress;
    takes = r.takes;
    counted = omega (arith, r.same_nodes);
    bounded = omega (arith, r.same_nodes);
    nested = omega arith;
    sorted = s;
  }

  dispatch-Parsed :
      (p : Parser)
      → p.nodes ≤ max_json_nodes
      → depth ≤ max_json_depth
      → Ensures (Parsed depth 1 p) (dispatch value p)
  unfolding dispatch peek pure fail size nesting HasSortedKeys
  dispatch-Parsed p b d = through p.rest p.position p.nodes b
    where
      through :
          (bs : Bytes) (i n : ℕ)
          → n ≤ max_json_nodes
          → let q : Parser = record { rest = bs; position = i; nodes = n } in
            Ensures (Parsed depth 1 q) (dispatch value q)
      through [] i n h = fails (cc)
      through (c ∷ cs) i n h =
          let q : Parser = record { rest = c ∷ cs; position = i; nodes = n } in
          Ensures-if (eqb c b'n')
            (λ _.
              Ensures-bind _ _ q (literal-Takes _ q (omega arith))
                λ _ r k. holds (leaf null refl refl tt h d k))
            λ _.
              Ensures-if (eqb c b't')
                (λ _.
                  Ensures-bind _ _ q (literal-Takes _ q (omega arith))
                    λ _ r k. holds (leaf (bool true) refl refl tt h d k))
                λ _.
                  Ensures-if (eqb c b'f')
                    (λ _.
                      Ensures-bind _ _ q (literal-Takes _ q (omega arith))
                        λ _ r k. holds (leaf (bool false) refl refl tt h d k))
                    λ _.
                      Ensures-if (eqb c b'"')
                        (λ _.
                          Ensures-bind _ _ q (parse_string-Takes q)
                            λ s r k. holds (leaf (string s) refl refl tt h d k))
                        λ _.
                          Ensures-if (eqb c b'[') (λ _. parse_array-Parsed depth value inner q h d)
                            λ _.
                              Ensures-if (eqb c b'{')
                                (λ _. parse_object-Parsed depth value inner q h d)
                                λ _.
                                  Ensures-if (eqb c b'-' || is_digit c)
                                    (λ _.
                                      Ensures-bind _ _ q (parse_number-Takes q)
                                        λ s r k. holds (leaf (number s) refl refl tt h d k))
                                    λ _. fails (cc)

enter_value-Reads :
    (depth : ℕ) (p : Parser)
    → Ensures
        (λ _ q.
          (depth ≤ max_json_depth)
          × (q.nodes ≤ max_json_nodes)
          × (q ≡ record p { nodes = p.nodes + 1 }))
        (enter_value depth p)
unfolding enter_value fail
enter_value-Reads depth p =
    Ensures-if (ltb max_json_depth depth) (λ _. fails (cc))
      λ low.
        Ensures-if (ltb max_json_nodes (p.nodes + 1)) (λ _. fails (cc))
          λ few. holds (le_of_ltb _ _ low, le_of_ltb _ _ few, refl)

-- what stands before the value counts neither for its nodes nor for its depth
after_entry :
    (depth : ℕ) (v : StrictJson) {p q r : Parser}
    → Reads (record p { nodes = p.nodes + 1 }) q
    → Parsed depth 1 q v r
    → Parsed depth 0 p v r
after_entry depth v h k = record {
  progress = omega (arith, h.progress, k.progress);
  takes = omega (arith, h.reads, k.takes);
  counted = omega (arith, h.same_nodes, k.counted);
  bounded = k.bounded;
  nested = k.nested;
  sorted = k.sorted;
}

parse_value-Parsed :
    (fuel depth : ℕ) (p : Parser)
    → max_json_depth + 1 < fuel + depth
    → depth ≤ max_json_depth + 1
    → Ensures (Parsed depth 0 p) (parse_value fuel depth p)
unfolding parse_value
parse_value-Parsed zero depth p h d = absurd (omega arith)
parse_value-Parsed (suc fuel) depth p h d =
    let next_depth : depth + 1 ≡ suc depth = omega arith in
    Ensures-bind _ _ p (enter_value-Reads depth p) λ _ q (low, few, e).
      Ensures-bind _ _ q (skip_whitespace-Reads q) λ _ r k.
        Ensures-imp (Parsed depth 0 p)
          (dispatch-Parsed depth (λ q. parse_value fuel (depth + 1) q)
            (λ q. rw next_depth (parse_value-Parsed fuel (suc depth) q (omega arith) (omega arith)))
            r (omega (arith, k.same_nodes)) low)
          λ v s y. holds (after_entry depth v (subst (λ o. Reads o r) e k) y)

-- What the parser accepts.
pub record IsAccepted (v : StrictJson) : Type 0 where
  pub few_nodes : size v ≤ max_json_nodes
  pub shallow : nesting v ≤ max_json_depth
  pub sorted : HasSortedKeys v

start : Bytes → Parser
start text = record { rest = text; position = 0; nodes = 0 }

document-Accepted :
    (text : Bytes)
    → Ensures (λ v q. IsAccepted v × (q.position ≡ length text)) (document (start text))
unfolding document start fail
document-Accepted text =
    let p = start text in
    Ensures-bind _ _ p (skip_whitespace-Reads p) λ _ q h.
      Ensures-bind _ _ q (parse_value-Parsed (max_json_depth + 2) 0 q (omega arith) (omega arith))
        λ v r k. Ensures-bind _ _ r (skip_whitespace-Reads r) λ _ s l.
          Ensures-if (eqb (length s.rest) 0)
            (λ e. holds (
              record {
                few_nodes = omega (arith, k.counted, k.bounded, h.same_nodes);
                shallow = omega (arith, k.nested);
                sorted = k.sorted;
              },
              omega (arith, (eqb_iff (length s.rest) 0).0 e, h.accounted, k.accounted, l.accounted),
            ))
            (λ _. fails (cc))

accepted :
    {P : StrictJson → Type 0} {Q : Parser → Type 0} {r : Result JsonError (StrictJson × Parser)}
    → Ensures (λ v q. P v × Q q) r
    → (v : StrictJson) → value_of r ≡ ok v
    → P v
unfolding value_of
accepted {P} (holds h) v e = subst P (cc) h.0
accepted (fails n) v e = cc

never_starves :
    {P : StrictJson → Parser → Type 0} {r : Result JsonError (StrictJson × Parser)}
    → Ensures P r
    → (e : JsonError) → value_of r ≡ err e
    → e.detail ≢ out_of_fuel
unfolding value_of
never_starves (holds h) e p = cc
never_starves (fails n) e p = λ q. n (cc)

-- A parsed document has at most 100000 values, each within at most 128 arrays and objects, and in each
-- object the keys ascend strictly, so that none is repeated.
pub parse_strict_json-IsAccepted :
    (text : Bytes) (v : StrictJson) → parse_strict_json text ≡ ok v → IsAccepted v
unfolding parse_strict_json start
parse_strict_json-IsAccepted text v h = accepted (document-Accepted text) v h

-- The parser returns on every input: an error is always one of the program's own.
pub parse_strict_json_ends :
    (text : Bytes)
    → ((v : StrictJson) × (parse_strict_json text ≡ ok v))
      ⊎ ((e : JsonError) × (parse_strict_json text ≡ err e) × (e.detail ≢ out_of_fuel))
unfolding parse_strict_json start
parse_strict_json_ends text = by_result (parse_strict_json text) refl
  where
    by_result :
        (r : Result JsonError StrictJson)
        → parse_strict_json text ≡ r
        → ((v : StrictJson) × (parse_strict_json text ≡ ok v))
          ⊎ ((e : JsonError) × (parse_strict_json text ≡ err e) × (e.detail ≢ out_of_fuel))
    by_result (ok v) e = inl (v, e)
    by_result (err x) e = inr (x, e, never_starves (document-Accepted text) x e)
