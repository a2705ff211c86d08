-- ===== src/Core/Sha256.antt =====
-- rust/crates/leanbun-core/src/sha256.rs: the streaming hasher.
mod Compress
pub mod Stream
pub mod Padding
pub mod Bytes
pub use Compress.{Words, initial_state}
unfoldable pub use Compress.{compress}
use leanbun.Base.{
  ℕ, zero, suc, ◌+◌, ◌-◌, ◌*◌, ◌/◌, ◌%◌, ◌^◌, ◌≤◌, ◌<◌, min, ◌≡◌, refl, List, [], ◌∷◌, ◌++◌, Bool,
  true, false, length, take, drop, replicate, ltb, leb, eqb, if◌then◌else◌,
}

-- `buffer` holds 64 bytes, of which the first `buffer_len` wait for a full block.
pub record Hasher : Type 0 where
  pub state : Words
  pub buffer : List ℕ
  pub buffer_len : ℕ
  pub length_bytes : ℕ

unfoldable pub new : Hasher
new = record { state = initial_state; buffer = replicate 64 0; buffer_len = 0; length_bytes = 0 }

-- `saturating_add` and `saturating_mul` of u64
unfoldable pub saturate : ℕ → ℕ
saturate n = if ltb n (2 ^ 64) then n else 2 ^ 64 - 1

-- `buffer[at..at + bytes.len()].copy_from_slice(bytes)`
unfoldable pub copy_into : List ℕ → ℕ → List ℕ → List ℕ
copy_into buffer at bytes = take at buffer ++ (bytes ++ drop (at + length bytes) buffer)

-- `while input.len() >= 64`: the state after the full blocks, and what is left of the input
unfoldable pub absorb_blocks : ℕ → Words → List ℕ → Words × List ℕ
absorb_blocks zero state input = (state, input)
absorb_blocks (suc fuel) state input =
    let rest = absorb_blocks fuel (compress state (take 64 input)) (drop 64 input) in
    if leb 64 (length input) then rest else (state, input)

-- The end of `update`: full blocks, then the rest into the buffer. The input's length is fuel enough.
unfoldable pub update_from_empty : Hasher → List ℕ → Hasher
update_from_empty h input =
    let (state, rest) = absorb_blocks (length input) h.state input in
    record h { state = state; buffer = copy_into h.buffer 0 rest; buffer_len = length rest }

-- The branch `buffer_len > 0`, which may return early.
unfoldable pub update_buffered : Hasher → List ℕ → Hasher
unfolding update_from_empty
update_buffered h input =
    let count = min (64 - h.buffer_len) (length input) in
    let buffer = copy_into h.buffer h.buffer_len (take count input) in
    let buffer_len = h.buffer_len + count in
    if ltb buffer_len 64
    then record h { buffer = buffer; buffer_len = buffer_len }
    else update_from_empty
        (record h { state = compress h.state buffer; buffer = buffer; buffer_len = 0 })
        (drop count input)

unfoldable pub update : Hasher → List ℕ → Hasher
unfolding saturate update_buffered update_from_empty
update h input =
    let counted = record h { length_bytes = saturate (h.length_bytes + length input) } in
    if ltb 0 h.buffer_len then update_buffered counted input else update_from_empty counted input

-- `to_be_bytes` of a w-byte integer
unfoldable pub to_be_bytes : ℕ → ℕ → List ℕ
to_be_bytes zero n = []
to_be_bytes (suc w) n = (n / 256 ^ w) % 256 ∷ to_be_bytes w n

unfoldable pub digest_bytes : Words → List ℕ
unfolding to_be_bytes
digest_bytes [] = []
digest_bytes (w ∷ ws) = to_be_bytes 4 w ++ digest_bytes ws

-- `buffer[from..to].fill(0)`
unfoldable pub fill_zero : List ℕ → ℕ → ℕ → List ℕ
fill_zero buffer from to = copy_into buffer from (replicate (to - from) 0)

unfoldable pub finalize : Hasher → List ℕ
unfolding saturate copy_into fill_zero to_be_bytes digest_bytes
finalize h =
    let bit_length = saturate (h.length_bytes * 8) in
    let marked = copy_into h.buffer h.buffer_len (0x80 ∷ []) in
    let buffer_len = h.buffer_len + 1 in
    let tail = to_be_bytes 8 bit_length in
    if ltb 56 buffer_len
    then digest_bytes (
        compress (compress h.state (fill_zero marked buffer_len 64))
          (copy_into (replicate 64 0) 56 tail))
    else digest_bytes (compress h.state (copy_into (fill_zero marked buffer_len 56) 56 tail))
