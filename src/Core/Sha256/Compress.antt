-- ===== src/Core/Sha256/Compress.antt =====
-- The constants and `compress` of rust/crates/leanbun-core/src/sha256.rs. A word is a number below
-- 2 ^ 32; additions wrap by `%`.
use Prim.Native.Nat.{bit_and, bit_xor}
use leanbun.Base.{
  ℕ, zero, suc, ◌+◌, ◌-◌, ◌*◌, ◌/◌, ◌%◌, ◌^◌, List, [], ◌∷◌, ◌++◌, length, get_or, ◌≡◌, refl, ◌<◌,
  All, arith,
}

abbrev pub Words : Type 0
Words = List ℕ

abbrev pub initial_state : Words
initial_state =
    0x6a09_e667 ∷ 0xbb67_ae85 ∷ 0x3c6e_f372 ∷ 0xa54f_f53a ∷ 0x510e_527f ∷ 0x9b05_688c ∷ 0x1f83_d9ab
    ∷ 0x5be0_cd19 ∷ []

abbrev pub round_constants : Words
round_constants =
    0x428a_2f98 ∷ 0x7137_4491 ∷ 0xb5c0_fbcf ∷ 0xe9b5_dba5 ∷ 0x3956_c25b ∷ 0x59f1_11f1 ∷ 0x923f_82a4
    ∷ 0xab1c_5ed5 ∷ 0xd807_aa98 ∷ 0x1283_5b01 ∷ 0x2431_85be ∷ 0x550c_7dc3 ∷ 0x72be_5d74
    ∷ 0x80de_b1fe ∷ 0x9bdc_06a7 ∷ 0xc19b_f174 ∷ 0xe49b_69c1 ∷ 0xefbe_4786 ∷ 0x0fc1_9dc6
    ∷ 0x240c_a1cc ∷ 0x2de9_2c6f ∷ 0x4a74_84aa ∷ 0x5cb0_a9dc ∷ 0x76f9_88da ∷ 0x983e_5152
    ∷ 0xa831_c66d ∷ 0xb003_27c8 ∷ 0xbf59_7fc7 ∷ 0xc6e0_0bf3 ∷ 0xd5a7_9147 ∷ 0x06ca_6351
    ∷ 0x1429_2967 ∷ 0x27b7_0a85 ∷ 0x2e1b_2138 ∷ 0x4d2c_6dfc ∷ 0x5338_0d13 ∷ 0x650a_7354
    ∷ 0x766a_0abb ∷ 0x81c2_c92e ∷ 0x9272_2c85 ∷ 0xa2bf_e8a1 ∷ 0xa81a_664b ∷ 0xc24b_8b70
    ∷ 0xc76c_51a3 ∷ 0xd192_e819 ∷ 0xd699_0624 ∷ 0xf40e_3585 ∷ 0x106a_a070 ∷ 0x19a4_c116
    ∷ 0x1e37_6c08 ∷ 0x2748_774c ∷ 0x34b0_bcb5 ∷ 0x391c_0cb3 ∷ 0x4ed8_aa4a ∷ 0x5b9c_ca4f
    ∷ 0x682e_6ff3 ∷ 0x748f_82ee ∷ 0x78a5_636f ∷ 0x84c8_7814 ∷ 0x8cc7_0208 ∷ 0x90be_fffa
    ∷ 0xa450_6ceb ∷ 0xbef9_a3f7 ∷ 0xc671_78f2 ∷ []

-- `wrapping_add` of u32
wrapping_add : ℕ → ℕ → ℕ
wrapping_add a b = (a + b) % 2 ^ 32

-- `rotate_right` of u32: the two parts share no bit, so their sum is their union
rotate_right : ℕ → ℕ → ℕ
rotate_right w n = (w / 2 ^ n + w * 2 ^ (32 - n)) % 2 ^ 32

-- `u32::from_be_bytes` on each chunk of four bytes
from_be_bytes : List ℕ → Words
from_be_bytes (a ∷ b ∷ c ∷ d ∷ rest) =
    (a * 2 ^ 24 + b * 2 ^ 16 + c * 2 ^ 8 + d) ∷ from_be_bytes rest
from_be_bytes _ = []

-- schedule[index], from the entries before it
next_word : Words → ℕ
unfolding rotate_right wrapping_add
next_word schedule =
    let index = length schedule in
    let w15 = get_or schedule (index - 15) 0 in
    let w2 = get_or schedule (index - 2) 0 in
    let s0 = bit_xor (bit_xor (rotate_right w15 7) (rotate_right w15 18)) (w15 / 2 ^ 3) in
    let s1 = bit_xor (bit_xor (rotate_right w2 17) (rotate_right w2 19)) (w2 / 2 ^ 10) in
    wrapping_add
      (wrapping_add (wrapping_add (get_or schedule (index - 16) 0) s0)
        (get_or schedule (index - 7) 0))
      s1

-- for index in 16..64: the array grows by the word that the round writes
extend_schedule : ℕ → Words → Words
extend_schedule zero schedule = schedule
extend_schedule (suc n) schedule = extend_schedule n (schedule ++ next_word schedule ∷ [])

pub record Registers : Type 0 where
  pub a : ℕ
  pub b : ℕ
  pub c : ℕ
  pub d : ℕ
  pub e : ℕ
  pub f : ℕ
  pub g : ℕ
  pub h : ℕ

-- one round: a constant and a word of the schedule
round : ℕ → ℕ → Registers → Registers
unfolding rotate_right wrapping_add
round constant word r =
    let sum1 = bit_xor (bit_xor (rotate_right r.e 6) (rotate_right r.e 11)) (rotate_right r.e 25) in
    let choice = bit_xor (bit_and r.e r.f) (bit_and (2 ^ 32 - 1 - r.e) r.g) in
    let temporary1 =
      wrapping_add (wrapping_add (wrapping_add (wrapping_add r.h sum1) choice) constant) word in
    let sum0 = bit_xor (bit_xor (rotate_right r.a 2) (rotate_right r.a 13)) (rotate_right r.a 22) in
    let majority = bit_xor (bit_xor (bit_and r.a r.b) (bit_and r.a r.c)) (bit_and r.b r.c) in
    let temporary2 = wrapping_add sum0 majority in
    record {
      a = wrapping_add temporary1 temporary2;
      b = r.a;
      c = r.b;
      d = r.c;
      e = wrapping_add r.d temporary1;
      f = r.e;
      g = r.f;
      h = r.g;
    }

rounds : Words → Words → Registers → Registers
rounds (k ∷ ks) (w ∷ ws) r = rounds ks ws (round k w r)
rounds _ _ r = r

load_registers : Words → Registers
load_registers state = record {
  a = get_or state 0 0;
  b = get_or state 1 0;
  c = get_or state 2 0;
  d = get_or state 3 0;
  e = get_or state 4 0;
  f = get_or state 5 0;
  g = get_or state 6 0;
  h = get_or state 7 0;
}

-- `value.wrapping_add(compressed)` for each of the eight words
add_registers : Registers → Registers → Words
unfolding wrapping_add
add_registers s r =
    wrapping_add s.a r.a
    ∷ wrapping_add s.b r.b
    ∷ wrapping_add s.c r.c
    ∷ wrapping_add s.d r.d
    ∷ wrapping_add s.e r.e
    ∷ wrapping_add s.f r.f
    ∷ wrapping_add s.g r.g
    ∷ wrapping_add s.h r.h
    ∷ []

unfoldable pub compress : Words → List ℕ → Words
unfolding from_be_bytes next_word extend_schedule round rounds load_registers add_registers
compress state block =
    let schedule = extend_schedule 48 (from_be_bytes block) in
    let s = load_registers state in add_registers s (rounds round_constants schedule s)

-- Every word that `compress` leaves fits 32 bits, and there are eight.
pub compress_words :
    (state : Words) (block : List ℕ)
    → (length (compress state block) ≡ 8) × All (λ w. w < 2 ^ 32) (compress state block)
unfolding compress
compress_words state block = (refl, omega arith)
