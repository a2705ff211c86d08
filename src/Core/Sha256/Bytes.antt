-- ===== src/Core/Sha256/Bytes.antt =====
-- The shape of a digest.
use leanbun.Base.{
  ℕ, zero, suc, ◌+◌, ◌*◌, ◌<◌, ◌≡◌, refl, List, [], ◌∷◌, length, length-append, All, All-append,
  ltb, arith, Bool-cases, inl, inr,
}
use leanbun.Core.Sha256.{Hasher, to_be_bytes, digest_bytes, finalize, compress}
use leanbun.Core.Sha256.Compress.{compress_words}

to_be_bytes_shape :
    (w n : ℕ) → (length (to_be_bytes w n) ≡ w) × All (λ b. b < 256) (to_be_bytes w n)
unfolding to_be_bytes
to_be_bytes_shape zero n = (refl, tt)
to_be_bytes_shape (suc w) n =
    let (size, small) = to_be_bytes_shape w n in (omega (arith, size), (omega arith, small))

digest_bytes_shape :
    (words : List ℕ)
    → (length (digest_bytes words) ≡ 4 * length words) × All (λ b. b < 256) (digest_bytes words)
unfolding digest_bytes
digest_bytes_shape [] = (refl, tt)
digest_bytes_shape (w ∷ ws) =
    let (size, small) = digest_bytes_shape ws in
    let (four, fits) = to_be_bytes_shape 4 w in
    (
      omega (arith, length-append (to_be_bytes 4 w) (digest_bytes ws), size, four),
      All-append (λ b. b < 256) (to_be_bytes 4 w) (digest_bytes ws) fits small,
    )

compressed :
    (state : List ℕ) (block : List ℕ)
    → (length (digest_bytes (compress state block)) ≡ 32)
      × All (λ b. b < 256) (digest_bytes (compress state block))
compressed state block =
    let (size, small) = digest_bytes_shape (compress state block) in
    (omega (arith, size, (compress_words state block).0), small)

-- Every digest has 32 bytes.
pub finalize_bytes : (h : Hasher) → (length (finalize h) ≡ 32) × All (λ b. b < 256) (finalize h)
unfolding finalize
finalize_bytes h = elim (Bool-cases (ltb 56 (h.buffer_len + 1))) [
  | inl far ↦ rw far (compressed _ _)
  | inr near ↦ rw near (compressed _ _)
]
