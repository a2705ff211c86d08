-- ===== src/Examples/Core.antt =====
-- The digest of "abc", and the theorems on digests and build targets at concrete inputs.
use leanbun.Base.{
  ℕ, ◌*◌, ◌%◌, List, [], ◌∷◌, ◌++◌, ◌≡◌, refl, ok, bytes, replicate, length, true, ◌↔◌, arith,
}
use leanbun.Core.Sha256.{
  new, update, finalize, digest_bytes, initial_state, absorb_blocks, compress,
}
use leanbun.Core.Sha256.Stream.{absorb}
use leanbun.Core.Sha256.Padding.{padding, new-IsValid, finalize-update-update, finalize-update-new}
use leanbun.Core.Identity.{parse_sha256, display_sha256, valid_build_target}
use leanbun.Core.Identity.Digest.{IsDigest, parse-display, parse_sha256-eq_ok}
use leanbun.Core.Identity.Target.{IsTarget, valid_build_target_iff}

digest_of_abc :
    finalize (update new (bytes "abc"))
    ≡ 0xba ∷ 0x78 ∷ 0x16 ∷ 0xbf ∷ 0x8f ∷ 0x01 ∷ 0xcf ∷ 0xea ∷ 0x41 ∷ 0x41 ∷ 0x40 ∷ 0xde ∷ 0x5d
      ∷ 0xae ∷ 0x22 ∷ 0x23 ∷ 0xb0 ∷ 0x03 ∷ 0x61 ∷ 0xa3 ∷ 0x96 ∷ 0x17 ∷ 0x7a ∷ 0x9c ∷ 0xb4 ∷ 0x10
      ∷ 0xff ∷ 0x61 ∷ 0xf2 ∷ 0x00 ∷ 0x15 ∷ 0xad ∷ []
unfolding finalize update new absorb_blocks compress
digest_of_abc = refl

abbrev sixty : List ℕ
sixty = replicate 60 7

abbrev seventy : List ℕ
seventy = replicate 70 8

finalize-update-update_example :
    finalize (update (update new sixty) seventy) ≡ finalize (update new (sixty ++ seventy))
finalize-update-update_example = finalize-update-update new sixty seventy new-IsValid

finalize-update-new_example :
    finalize (update new sixty)
    ≡ digest_bytes
        (absorb (initial_state, []) (sixty ++ padding (length sixty % 64) (length sixty * 8))).0
finalize-update-new_example = finalize-update-new sixty (omega arith)

sevens-IsDigest : IsDigest (replicate 32 0xa7)
sevens-IsDigest = record { size = refl; bytes = omega arith }

parse-display_example : parse_sha256 (display_sha256 (replicate 32 0xa7)) ≡ ok (replicate 32 0xa7)
parse-display_example = parse-display (replicate 32 0xa7) sevens-IsDigest

accepted_text : parse_sha256 (replicate 64 b'c') ≡ ok (replicate 32 0xcc)
unfolding parse_sha256
accepted_text = refl

parse_sha256-eq_ok_example :
    IsDigest (replicate 32 0xcc) × (display_sha256 (replicate 32 0xcc) ≡ replicate 64 b'c')
parse_sha256-eq_ok_example =
    parse_sha256-eq_ok (replicate 64 b'c') (replicate 32 0xcc) accepted_text

valid_build_target_iff_example :
    (valid_build_target (bytes "Lib/Main:olean") ≡ true) ↔ IsTarget (bytes "Lib/Main:olean")
valid_build_target_iff_example = valid_build_target_iff (bytes "Lib/Main:olean")
