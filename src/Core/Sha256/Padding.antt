-- ===== src/Core/Sha256/Padding.antt =====
-- `finalize` against the padding of FIPS 180-4, and what that gives for messages in pieces.
use leanbun.Base.{
  ℕ, zero, suc, ◌+◌, ◌-◌, ◌*◌, ◌%◌, ◌^◌, ◌≤◌, ◌<◌, ◌≡◌, refl, sym, ap, ◌∙◌, inl, inr, List, [], ◌∷◌,
  ◌++◌, append_assoc, arith, length, take, length-append, length-take, take_all, Bool-cases,
  le_of_ltb, ltb→lt, ltb, replicate, length-replicate,
}
use leanbun.Core.Sha256.{
  Hasher, new, saturate, copy_into, update, finalize, compress, initial_state, to_be_bytes,
  digest_bytes, fill_zero,
}
use leanbun.Core.Sha256.Stream.{
  IsValid, view, absorb, absorb-append, absorb_full, length-copy_into, take-copy_into, update-view,
  length_bytes-update, absorb_waiting,
}

-- 0x80, zeros up to 56 bytes of the last block, and the message's length in bits
abbrev pub padding : ℕ → ℕ → List ℕ
padding waiting bits = (0x80 ∷ replicate ((119 - waiting) % 64) 0) ++ to_be_bytes 8 bits

length-to_be_bytes : (w n : ℕ) → length (to_be_bytes w n) ≡ w
unfolding to_be_bytes
length-to_be_bytes zero n = refl
length-to_be_bytes (suc w) n = ap suc (length-to_be_bytes w n)

replicate-add : (m n x : ℕ) → replicate (m + n) x ≡ replicate m x ++ replicate n x
replicate-add zero n x = ap (λ k. replicate k x) (omega arith)
replicate-add (suc m) n x =
    let e : suc m + n ≡ suc (m + n) = omega arith in
    ap (λ k. replicate k x) e ∙ ap (λ t. x ∷ t) (replicate-add m n x)

-- A buffer that is copied to its end is what stands below the copy, and the copy.
copy_into_end :
    (buffer : List ℕ) (at : ℕ) (bytes : List ℕ)
    → at + length bytes ≡ length buffer
    → copy_into buffer at bytes ≡ take at buffer ++ bytes
copy_into_end buffer at bytes e =
    sym (
      take_all (length buffer) (copy_into buffer at bytes)
        (omega (arith, length-copy_into buffer at bytes)))
    ∙ take-copy_into buffer at bytes (length buffer) (sym e) (omega arith)

module _ (h : Hasher) (v : IsValid h) where
  pending : List ℕ
  pending = take h.buffer_len h.buffer

  marked : List ℕ
  marked = copy_into h.buffer h.buffer_len (0x80 ∷ [])

  length-pending : length pending ≡ h.buffer_len
  unfolding pending
  length-pending = omega (arith, length-take h.buffer_len h.buffer, v.buffer_full, v.waits)

  length-marked : length marked ≡ 64
  unfolding marked
  length-marked =
      length-copy_into h.buffer h.buffer_len (0x80 ∷ []) (omega (arith, v.buffer_full, v.waits))
      ∙ v.buffer_full

  take-marked : take (h.buffer_len + 1) marked ≡ pending ++ 0x80 ∷ []
  unfolding marked pending
  take-marked =
      take-copy_into h.buffer h.buffer_len (0x80 ∷ []) (h.buffer_len + 1) refl
        (omega (arith, v.buffer_full, v.waits))

  -- the buffer up to `to`, after the mark and the zeros
  filled :
      (to : ℕ)
      → h.buffer_len + 1 ≤ to
      → to ≤ 64
      → (take to (fill_zero marked (h.buffer_len + 1) to)
          ≡ pending ++ 0x80 ∷ replicate (to - (h.buffer_len + 1)) 0)
        × (length (fill_zero marked (h.buffer_len + 1) to) ≡ 64)
  unfolding fill_zero
  filled to low high =
      let zeros : List ℕ = replicate (to - (h.buffer_len + 1)) 0 in
      let n = h.buffer_len + 1 in
      let len = length-replicate {A = ℕ} (to - n) 0 in
      (
        take-copy_into marked n zeros to (omega (arith, len)) (omega (arith, length-marked))
            ∙ ap (λ t. t ++ zeros) take-marked
            ∙ append_assoc pending (0x80 ∷ []) zeros,
        length-copy_into marked n zeros (omega (arith, len, length-marked)) ∙ length-marked,
      )

  -- the mark leaves room for the length in its block
  one_block :
      (tail : List ℕ)
      → length tail ≡ 8
      → h.buffer_len + 1 ≤ 56
      → (compress h.state (copy_into (fill_zero marked (h.buffer_len + 1) 56) 56 tail), [])
        ≡ absorb (h.state, pending) ((0x80 ∷ replicate ((119 - h.buffer_len) % 64) 0) ++ tail)
  one_block tail t low =
      let (below, len) = filled 56 low (omega arith) in
      let zeros : List ℕ = replicate (56 - (h.buffer_len + 1)) 0 in
      let k : (119 - h.buffer_len) % 64 ≡ 56 - (h.buffer_len + 1) = omega arith in
      rw k (
        ap (λ b. (compress h.state b, []))
          (copy_into_end (fill_zero marked (h.buffer_len + 1) 56) 56 tail (omega arith)
            ∙ ap (λ b. b ++ tail) below
            ∙ append_assoc pending (0x80 ∷ zeros) tail)
        ∙ sym (
            absorb_full h.state pending ((0x80 ∷ zeros) ++ tail) (omega arith) (
              omega (
                arith,
                length-append (0x80 ∷ zeros) tail,
                length-replicate {A = ℕ} (56 - (h.buffer_len + 1)) 0,
                length-pending,
              ))))

  -- the mark takes the end of its block, and the length a block of its own
  two_blocks :
      (tail : List ℕ)
      → length tail ≡ 8
      → 56 < h.buffer_len + 1
      → (
        compress
            (compress h.state (fill_zero marked (h.buffer_len + 1) 64))
            (copy_into (replicate 64 0) 56 tail),
        [],
      )
        ≡ absorb (h.state, pending) ((0x80 ∷ replicate ((119 - h.buffer_len) % 64) 0) ++ tail)
  two_blocks tail t high =
      let (below, len) = filled 64 (omega (arith, v.waits)) (omega arith) in
      let n = 64 - (h.buffer_len + 1) in
      let zeros : List ℕ = replicate n 0 in
      let first : fill_zero marked (h.buffer_len + 1) 64 ≡ pending ++ 0x80 ∷ zeros =
        sym (take_all 64 (fill_zero marked (h.buffer_len + 1) 64) (omega arith)) ∙ below in
      let middle = compress h.state (pending ++ 0x80 ∷ zeros) in
      let k : (119 - h.buffer_len) % 64 ≡ n + 56 = omega (arith, v.waits) in
      rw k (
        ap (λ b. (compress (compress h.state b) (copy_into (replicate 64 0) 56 tail), [])) first
        ∙ ap (λ b. (compress middle b, [])) (copy_into_end (replicate 64 0) 56 tail (omega arith))
        ∙ sym (
            absorb_full middle [] (replicate 56 0 ++ tail) (omega arith)
              (omega (arith, length-append (replicate 56 0) tail)))
        ∙ ap (λ s. absorb s (replicate 56 0 ++ tail))
            (sym (
              absorb_full h.state pending (0x80 ∷ zeros) (omega arith)
                (omega (arith, length-replicate {A = ℕ} n 0, length-pending, v.waits))))
        ∙ sym (absorb-append (h.state, pending) (0x80 ∷ zeros) (replicate 56 0 ++ tail))
        ∙ ap (absorb (h.state, pending)) (
            sym (append_assoc (0x80 ∷ zeros) (replicate 56 0) tail)
            ∙ ap (λ z. (0x80 ∷ z) ++ tail) (sym (replicate-add n 56 0))))

  finalize-absorb :
      finalize h
      ≡ digest_bytes (absorb (view h) (padding h.buffer_len (saturate (h.length_bytes * 8)))).0
  unfolding finalize marked pending
  finalize-absorb =
      let tail = to_be_bytes 8 (saturate (h.length_bytes * 8)) in
      let t = length-to_be_bytes 8 (saturate (h.length_bytes * 8)) in
      elim (Bool-cases (ltb 56 (h.buffer_len + 1))) [
        | inl high ↦ rw high (ap (λ s. digest_bytes s.0) (two_blocks tail t (ltb→lt _ _ high)))
        | inr low ↦ rw low (ap (λ s. digest_bytes s.0) (one_block tail t (le_of_ltb _ _ low)))
      ]

-- The digest sees a hasher only by its view and its count.
finalize_by_view :
    (g h : Hasher)
    → IsValid g
    → IsValid h
    → view g ≡ view h
    → g.length_bytes ≡ h.length_bytes
    → finalize g ≡ finalize h
unfolding pending
finalize_by_view g h vg vh same counted =
    let waiting : g.buffer_len ≡ h.buffer_len =
      sym (length-pending g vg) ∙ ap (λ s. length s.1) same ∙ length-pending h vh in
    finalize-absorb g vg
    ∙ ap (λ s. digest_bytes (absorb s (padding g.buffer_len (saturate (g.length_bytes * 8)))).0)
        same
    ∙ ap (λ n. digest_bytes (absorb (view h) (padding n (saturate (g.length_bytes * 8)))).0) waiting
    ∙ ap (λ n. digest_bytes (absorb (view h) (padding h.buffer_len (saturate (n * 8)))).0) counted
    ∙ sym (finalize-absorb h vh)

saturate_twice : (n a b : ℕ) → saturate (saturate (n + a) + b) ≡ saturate (n + (a + b))
unfolding saturate
saturate_twice n a b = ground arith

-- For a valid hasher, two updates give the digest of one update by the concatenation.
pub finalize-update-update :
    (h : Hasher) (first second : List ℕ)
    → IsValid h
    → finalize (update (update h first) second) ≡ finalize (update h (first ++ second))
finalize-update-update h first second v =
    let (seen_first, valid_first) = update-view h first v in
    let (seen_second, valid_second) = update-view (update h first) second valid_first in
    let (seen_both, valid_both) = update-view h (first ++ second) v in
    finalize_by_view (update (update h first) second) (update h (first ++ second)) valid_second
      valid_both
      (seen_second
        ∙ ap (λ s. absorb s second) seen_first
        ∙ sym (absorb-append (view h) first second)
        ∙ sym seen_both)
      (length_bytes-update (update h first) second
        ∙ ap (λ n. saturate (n + length second)) (length_bytes-update h first)
        ∙ saturate_twice h.length_bytes (length first) (length second)
        ∙ ap (λ n. saturate (h.length_bytes + n)) (sym (length-append first second))
        ∙ sym (length_bytes-update h (first ++ second)))

pub new-IsValid : IsValid new
unfolding new
new-IsValid = record { buffer_full = refl; waits = omega arith; counted = omega arith }

saturate_short :
    (message : List ℕ)
    → length message < 2 ^ 61
    → saturate (saturate (new.length_bytes + length message) * 8) ≡ length message * 8
unfolding saturate new
saturate_short message h = ground arith

-- For a message of fewer than 2 ^ 61 bytes the digest is that of the padded message, taken one byte
-- after the other from the initial state.
pub finalize-update-new :
    (message : List ℕ)
    → length message < 2 ^ 61
    → finalize (update new message)
      ≡ digest_bytes
          (absorb
            (initial_state, [])
            (message ++ padding (length message % 64) (length message * 8))).0
unfolding pending
finalize-update-new message short =
    let (seen, valid) = update-view new message new-IsValid in
    let h = update new message in
    let start : view new ≡ (initial_state, []) = unfold new in refl in
    let waiting : h.buffer_len ≡ length message % 64 =
      sym (length-pending h valid)
      ∙ ap (λ s. length s.1) (seen ∙ ap (λ s. absorb s message) start)
      ∙ absorb_waiting (initial_state, []) message (omega arith)
      ∙ omega arith in
    let bits : saturate (h.length_bytes * 8) ≡ length message * 8 =
      ap (λ n. saturate (n * 8)) (length_bytes-update new message) ∙ saturate_short message short in
    finalize-absorb h valid
    ∙ ap (λ n. digest_bytes (absorb (view h) (padding n (saturate (h.length_bytes * 8)))).0) waiting
    ∙ ap (λ n. digest_bytes (absorb (view h) (padding (length message % 64) n)).0) bits
    ∙ ap (λ s. digest_bytes (absorb s (padding (length message % 64) (length message * 8))).0)
        (seen ∙ ap (λ s. absorb s message) start)
    ∙ ap (λ s. digest_bytes s.0)
        (sym (
          absorb-append (initial_state, []) message
            (padding (length message % 64) (length message * 8))))
