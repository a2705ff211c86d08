-- ===== src/Core/Framing.antt =====
-- How the crates feed texts to the hasher: hash_string and hash_usize of
-- rust/crates/leanbun-lock/src/reservoir_binding_v1.rs, which lock_v1.rs, reservoir_policy_v1.rs and
-- rust/crates/leanbun-resolver/src/model.rs repeat.
use leanbun.Base.{ℕ, List, [], ◌∷◌, length, Option, none, some}
use leanbun.Core.Sha256.{Hasher, update, to_be_bytes}

-- `value.len()` is a u64 on every target of the crate
unfoldable pub hash_usize : ℕ → Hasher → Hasher
unfolding update to_be_bytes
hash_usize value hasher = update hasher (to_be_bytes 8 value)

unfoldable pub hash_string : List ℕ → Hasher → Hasher
unfolding hash_usize update
hash_string value hasher = update (hash_usize (length value) hasher) value

-- a tag byte, and the text if there is one
unfoldable pub hash_optional_string : Option (List ℕ) → Hasher → Hasher
unfolding update hash_string
hash_optional_string none hasher = update hasher (0 ∷ [])
hash_optional_string (some value) hasher = hash_string value (update hasher (1 ∷ []))

-- a tag byte, and the digest if there is one
unfoldable pub hash_optional_sha : Option (List ℕ) → Hasher → Hasher
unfolding update
hash_optional_sha none hasher = update hasher (0 ∷ [])
hash_optional_sha (some value) hasher = update (update hasher (1 ∷ [])) value
