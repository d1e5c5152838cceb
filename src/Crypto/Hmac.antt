-- ===== src/Crypto/Hmac.antt =====
-- kernel/src/crypto/hmac.rs: the keyed hash, over the streaming one. The self test is left out.
pub mod Rfc2104
use barry_os.Common.{List, ℕ, if◌then◌else◌, ◌∷◌, bit_xor, [], ltb, length, write_at, replicate}
use barry_os.Crypto.Sha256.{Sha256, finish, update, new, hash}

-- The key in a block: hashed first if it is longer.
unfoldable pub block_key : List ℕ → List ℕ
block_key key =
    if ltb 64 (length key)
    then write_at (replicate 64 0) 0 (hash key)
    else write_at (replicate 64 0) 0 key

-- The loop that masks a pad with the key.
unfoldable pub masked : List ℕ → ℕ → List ℕ
masked [] pad = []
masked (k ∷ ks) pad = bit_xor pad k ∷ masked ks pad

-- The loop over the chunks.
unfoldable pub update_parts : Sha256 → List (List ℕ) → Sha256
update_parts s [] = s
update_parts s (p ∷ ps) = update_parts (update s p) ps

unfoldable pub hmac_parts : List ℕ → List (List ℕ) → List ℕ
unfolding block_key masked update_parts
hmac_parts key parts =
    let k = block_key key in
    let ih = finish (update_parts (update new (masked k 0x36)) parts) in
    finish (update (update new (masked k 0x5c)) ih)

unfoldable pub hmac : List ℕ → List ℕ → List ℕ
unfolding hmac_parts
hmac key bytes = hmac_parts key (bytes ∷ [])
