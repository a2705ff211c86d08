-- ===== src/Core/Sha256/Stream.antt =====
-- The hasher against a specification that takes one byte at a time. The bytes of the buffer past
-- `buffer_len` are stale, so a hasher is compared by its view.
use leanbun.Base.{
  ℕ, zero, suc, ◌+◌, ◌-◌, ◌^◌, ◌%◌, ◌≤◌, ◌<◌, min, ◌≡◌, refl, sym, ap, ◌∙◌, inl, inr, List, [], ◌∷◌,
  ◌++◌, append_assoc, append-nil, arith, length, take, drop, length-append, length-take,
  length-drop, take_all, take-append-drop, take-length-append, Bool-cases, true, lt_of_leb,
  le_of_ltb, leb→le, ltb→lt, eqb, leb, ltb, if◌then◌else◌,
}
use leanbun.Core.Sha256.{
  Hasher, Words, saturate, copy_into, absorb_blocks, update_from_empty, update_buffered, update,
  compress,
}

-- The chaining state, and the bytes that wait for a full block.
abbrev pub Absorbed : Type 0
Absorbed = Words × List ℕ

push : Absorbed → ℕ → Absorbed
push (state, pending) byte =
    if eqb (length pending + 1) 64
    then (compress state (pending ++ byte ∷ []), [])
    else (state, pending ++ byte ∷ [])

unfoldable pub absorb : Absorbed → List ℕ → Absorbed
unfolding push
absorb s [] = s
absorb s (byte ∷ bytes) = absorb (push s byte) bytes

pub absorb-append : (s : Absorbed) (xs ys : List ℕ) → absorb s (xs ++ ys) ≡ absorb (absorb s xs) ys
unfolding absorb
absorb-append s [] ys = refl
absorb-append s (x ∷ xs) ys = absorb-append (push s x) xs ys

absorb_step :
    (state : Words) (pending : List ℕ) (x : ℕ) (xs : List ℕ)
    → length pending + 1 < 64
    → absorb (state, pending) (x ∷ xs) ≡ absorb (state, pending ++ x ∷ []) xs
unfolding absorb
absorb_step state pending x xs h = ground arith

regroup : (xs : List ℕ) (y : ℕ) (ys : List ℕ) → (xs ++ y ∷ []) ++ ys ≡ xs ++ y ∷ ys
regroup xs y ys = append_assoc xs (y ∷ []) ys

pub absorb_short :
    (state : Words) (pending xs : List ℕ)
    → length pending + length xs < 64
    → absorb (state, pending) xs ≡ (state, pending ++ xs)
unfolding absorb
absorb_short state pending [] h = rw append-nil
absorb_short state pending (x ∷ xs) h =
    absorb_step state pending x xs (omega arith)
    ∙ absorb_short state (pending ++ x ∷ []) xs (omega (arith, length-append pending (x ∷ [])))
    ∙ ap (λ t. (state, t)) (regroup pending x xs)

pub absorb_full :
    (state : Words) (pending xs : List ℕ)
    → 0 < length xs
    → length pending + length xs ≡ 64
    → absorb (state, pending) xs ≡ (compress state (pending ++ xs), [])
absorb_full state pending [] h e = absurd (omega arith)
absorb_full state pending (x ∷ []) h e = unfold absorb in ground arith
absorb_full state pending (x ∷ y ∷ ys) h e =
    absorb_step state pending x (y ∷ ys) (omega arith)
    ∙ absorb_full state (pending ++ x ∷ []) (y ∷ ys) (omega arith)
        (omega (arith, length-append pending (x ∷ [])))
    ∙ ap (λ t. (compress state t, [])) (regroup pending x (y ∷ ys))

module _ (buffer : List ℕ) (at : ℕ) (bytes : List ℕ) where
  pub length-copy_into :
      at + length bytes ≤ length buffer → length (copy_into buffer at bytes) ≡ length buffer
  unfolding copy_into
  length-copy_into h = omega (
    arith,
    length-append (take at buffer) (bytes ++ drop (at + length bytes) buffer),
    length-append bytes (drop (at + length bytes) buffer),
    length-take at buffer,
    length-drop (at + length bytes) buffer,
  )

  -- what a copy leaves below its end
  pub take-copy_into :
      (n : ℕ)
      → n ≡ at + length bytes
      → at ≤ length buffer
      → take n (copy_into buffer at bytes) ≡ take at buffer ++ bytes
  unfolding copy_into
  take-copy_into n e h =
      rw (← append_assoc (take at buffer) bytes (drop (at + length bytes) buffer)) (
        take-length-append n (take at buffer ++ bytes) _
          (omega (arith, length-append (take at buffer) bytes, length-take at buffer)))

-- The loop over full blocks, with the input's length for fuel, takes all of them.
absorb_blocks-absorb :
    (fuel : ℕ) (state : Words) (input : List ℕ)
    → length input ≤ fuel
    → (absorb (state, []) input ≡ absorb_blocks fuel state input)
      × (length (absorb_blocks fuel state input).1 < 64)
unfolding absorb_blocks
absorb_blocks-absorb zero state [] h = (unfold absorb in refl, omega arith)
absorb_blocks-absorb zero state (x ∷ xs) h = absurd (omega arith)
absorb_blocks-absorb (suc fuel) state input h = elim (Bool-cases (leb 64 (length input))) [
  | inl full ↦
      let ih =
        absorb_blocks-absorb fuel (compress state (take 64 input)) (drop 64 input)
          (omega (arith, length-drop 64 input)) in
      rw full (
        ap (absorb (state, [])) (sym (take-append-drop 64 input))
            ∙ absorb-append (state, []) (take 64 input) (drop 64 input)
            ∙ ap (λ s. absorb s (drop 64 input))
                (absorb_full state [] (take 64 input) (take_pos full) (take_64 full))
            ∙ ih.0,
        ih.1,
      )
  | inr short ↦
      let small = lt_of_leb 64 (length input) short in
      rw short (absorb_short state [] input (omega arith), small)
]
  where
    take_64 : leb 64 (length input) ≡ true → 0 + length (take 64 input) ≡ 64
    take_64 full = omega (arith, leb→le 64 (length input) full, length-take 64 input)

    take_pos : leb 64 (length input) ≡ true → 0 < length (take 64 input)
    take_pos full = omega (arith, take_64 full)

abbrev pub view : Hasher → Absorbed
view h = (h.state, take h.buffer_len h.buffer)

pub record IsValid (h : Hasher) : Type 0 where
  pub buffer_full : length h.buffer ≡ 64
  pub waits : h.buffer_len < 64
  pub counted : h.length_bytes < 2 ^ 64

-- With an empty buffer.
update_from_empty-view :
    (h : Hasher) (input : List ℕ)
    → length h.buffer ≡ 64
    → (view (update_from_empty h input) ≡ absorb (h.state, []) input)
      × (length (update_from_empty h input).buffer ≡ 64)
      × ((update_from_empty h input).buffer_len < 64)
unfolding update_from_empty
update_from_empty-view h input e =
    let (state, rest) = absorb_blocks (length input) h.state input in
    let (same, small) = absorb_blocks-absorb (length input) h.state input (omega arith) in
    (
      ap (λ t. (state, t))
            (take-copy_into h.buffer 0 rest (length rest) (omega arith) (omega arith))
          ∙ sym same,
      length-copy_into h.buffer 0 rest (omega arith) ∙ e,
      small,
    )

module _ (h : Hasher) (input : List ℕ) (e : length h.buffer ≡ 64) (small : h.buffer_len < 64) where
  count : ℕ
  count = min (64 - h.buffer_len) (length input)

  copied : List ℕ
  unfolding count
  copied = copy_into h.buffer h.buffer_len (take count input)

  taken : length (take count input) ≡ count
  unfolding count
  taken = omega (arith, length-take count input)

  length-copied : length copied ≡ 64
  unfolding copied count
  length-copied =
      length-copy_into h.buffer h.buffer_len (take count input) (omega (arith, taken)) ∙ e

  take-copied : take (h.buffer_len + count) copied ≡ take h.buffer_len h.buffer ++ take count input
  unfolding copied count
  take-copied =
      take-copy_into h.buffer h.buffer_len (take count input) (h.buffer_len + count)
        (omega (arith, taken)) (omega arith)

  pending_len : length (take h.buffer_len h.buffer) ≡ h.buffer_len
  pending_len = omega (arith, length-take h.buffer_len h.buffer)

  -- the early return: the whole input was copied
  buffered_short :
      h.buffer_len + count < 64
      → (h.state, take (h.buffer_len + count) copied) ≡ absorb (view h) input
  unfolding count
  buffered_short lt =
      let all : take count input ≡ input = take_all count input (omega arith) in
      ap (λ t. (h.state, t)) (take-copied ∙ ap (λ t. take h.buffer_len h.buffer ++ t) all)
      ∙ sym (absorb_short h.state (take h.buffer_len h.buffer) input (omega (arith, pending_len)))

  -- otherwise the copy filled one block
  buffered_full :
      64 ≤ h.buffer_len + count
      → absorb (compress h.state copied, []) (drop count input) ≡ absorb (view h) input
  unfolding count
  buffered_full ge =
      let pending = take h.buffer_len h.buffer in
      let block : copied ≡ pending ++ take count input =
        sym (take_all (h.buffer_len + count) copied (omega (arith, length-copied))) ∙ take-copied in
      ap (λ b. absorb (compress h.state b, []) (drop count input)) block
      ∙ ap (λ s. absorb s (drop count input))
          (sym (
            absorb_full h.state pending (take count input) (omega (arith, taken))
              (omega (arith, taken, pending_len))))
      ∙ sym (absorb-append (h.state, pending) (take count input) (drop count input))
      ∙ ap (absorb (h.state, pending)) (take-append-drop count input)

  update_buffered-view :
      (view (update_buffered h input) ≡ absorb (view h) input)
      × (length (update_buffered h input).buffer ≡ 64)
      × ((update_buffered h input).buffer_len < 64)
  unfolding update_buffered copied count
  update_buffered-view = elim (Bool-cases (ltb (h.buffer_len + count) 64)) [
    | inl lt ↦ rw lt (buffered_short (ltb→lt _ _ lt), length-copied, ltb→lt _ _ lt)
    | inr ge ↦
        let filled : Hasher = record h {
          state = compress h.state copied;
          buffer = copied;
          buffer_len = 0;
        } in
        let (seen, len, waits) = update_from_empty-view filled (drop count input) length-copied in
        rw ge (seen ∙ buffered_full (le_of_ltb _ _ ge), len, waits)
  ]

saturate-lt : (n : ℕ) → saturate n < 2 ^ 64
unfolding saturate
saturate-lt n = ground arith

length_bytes-update_from_empty :
    (h : Hasher) (input : List ℕ) → (update_from_empty h input).length_bytes ≡ h.length_bytes
unfolding update_from_empty
length_bytes-update_from_empty h input = refl

length_bytes-update_buffered :
    (h : Hasher) (input : List ℕ) → (update_buffered h input).length_bytes ≡ h.length_bytes
unfolding update_buffered
length_bytes-update_buffered h input = ground arith

pub length_bytes-update :
    (h : Hasher) (input : List ℕ)
    → (update h input).length_bytes ≡ saturate (h.length_bytes + length input)
unfolding update
length_bytes-update h input = ground arith

-- `update` takes its input one byte after the other, and keeps the hasher valid.
pub update-view :
    (h : Hasher) (input : List ℕ)
    → IsValid h
    → (view (update h input) ≡ absorb (view h) input) × IsValid (update h input)
unfolding update
update-view h input v =
    let counted : Hasher = record h { length_bytes = saturate (h.length_bytes + length input) } in
    elim (Bool-cases (ltb 0 h.buffer_len)) [
      | inl some_wait ↦
          let (seen, len, waits) = update_buffered-view counted input v.buffer_full v.waits in
          rw some_wait (
            seen,
            record {
              buffer_full = len;
              waits = waits;
              counted =
                  rw (length_bytes-update_buffered counted input)
                    (saturate-lt (h.length_bytes + length input));
            },
          )
      | inr none_wait ↦
          let (seen, len, waits) = update_from_empty-view counted input v.buffer_full in
          let zero_len : h.buffer_len ≡ 0 = omega (arith, le_of_ltb 0 h.buffer_len none_wait) in
          rw none_wait (
            seen ∙ ap (λ n. absorb (h.state, take n h.buffer) input) (sym zero_len),
            record {
              buffer_full = len;
              waits = waits;
              counted = saturate-lt (h.length_bytes + length input);
            },
          )
    ]

push_len :
    (s : Absorbed) (byte : ℕ) → length s.1 < 64 → length (push s byte).1 ≡ (length s.1 + 1) % 64
unfolding push
push_len (state, pending) byte h = ground (arith, length-append pending (byte ∷ []))

-- How many bytes wait after an input.
pub absorb_waiting :
    (s : Absorbed) (xs : List ℕ)
    → length s.1 < 64
    → length (absorb s xs).1 ≡ (length s.1 + length xs) % 64
unfolding absorb
absorb_waiting s [] h = omega arith
absorb_waiting s (x ∷ xs) h =
    let e = push_len s x h in let rest = absorb_waiting (push s x) xs (omega arith) in omega arith
