-- ===== src/Crypto/Hmac/Rfc2104.antt =====
-- The keyed hash against RFC 2104.
use barry_os.Crypto.Sha256.Message.{update_all, sha256, finish-update_all, length-sha256}
use barry_os.Crypto.Sha256.{hash}
use barry_os.Crypto.Hmac.{update_parts, masked, Sha256, update, finish, block_key, hmac_parts, new}
use barry_os.Common.{
  concat, ℕ, List, length, ◌≡◌, if◌then◌else◌, ltb, map, ◌∷◌, ◌≤◌, bit_xor, ◌++◌, write_at, [], ◌∙◌,
  replicate, ap, refl, ◌-◌, append-nil, write_at-append, Bool-cases, subst, ap₂, drop, inl, ◌+◌,
  arith, drop-replicate, inr, ltb→ge,
}

-- The key of RFC 2104, with zeroes behind it up to a block.
unfoldable pub key_block : List ℕ → List ℕ
key_block key =
    let k = if ltb 64 (length key) then sha256 key else key in k ++ replicate (64 - length k) 0

-- RFC 2104: H(K xor opad, H(K xor ipad, text)).
unfoldable pub rfc2104 : List ℕ → List ℕ → List ℕ
rfc2104 key text =
    let k = key_block key in
    sha256 (map (λ b. bit_xor 0x5c b) k ++ sha256 (map (λ b. bit_xor 0x36 b) k ++ text))

update_parts-update_all : (ps : List (List ℕ)) (s : Sha256) → update_parts s ps ≡ update_all s ps
unfolding update_parts update_all
update_parts-update_all [] s = refl
update_parts-update_all (p ∷ ps) s = update_parts-update_all ps (update s p)

masked-map : (ks : List ℕ) (pad : ℕ) → masked ks pad ≡ map (λ b. bit_xor pad b) ks
unfolding masked
masked-map [] pad = refl
masked-map (k ∷ ks) pad = ap (◌∷◌ (bit_xor pad k)) (masked-map ks pad)

hash_lem : (m : List ℕ) → hash m ≡ sha256 m
unfolding hash
hash_lem m =
    unfold update_all in finish-update_all (m ∷ []) ∙ unfold concat in ap sha256 (append-nil m)

-- A key that fits is written over the front of the zeroes.
write_at-zeroes :
    (k : List ℕ) → length k ≤ 64 → write_at (replicate 64 0) 0 k ≡ k ++ replicate (64 - length k) 0
write_at-zeroes k h =
    write_at-append k [] (replicate 64 0) 0 refl h
    ∙ ap (λ z. k ++ z)
        (subst (λ n. drop {A = ℕ} (length k) (replicate n 0) ≡ replicate (64 - length k) 0)
          {x = length k + (64 - length k)} {y = 64} (omega arith)
          (drop-replicate (length k) (64 - length k) 0))

block_key-key_block : (key : List ℕ) → block_key key ≡ key_block key
unfolding block_key key_block
block_key-key_block key = elim (Bool-cases (ltb 64 (length key))) [
  | inl long ↦ rw long (
      ap (λ k. write_at (replicate 64 0) 0 k) (hash_lem key)
      ∙ write_at-zeroes (sha256 key) (omega (arith, length-sha256 key)))
  | inr fits ↦ rw fits (write_at-zeroes key (ltb→ge _ _ fits))
]

-- Two updates and the digest.
finish_pair :
    (a : List ℕ) (ps : List (List ℕ))
    → finish (update_parts (update new a) ps) ≡ sha256 (a ++ concat ps)
finish_pair a ps =
    ap finish (update_parts-update_all ps (update new a))
    ∙ unfold update_all concat in finish-update_all (a ∷ ps)

-- However a text is cut into parts, and however long the key is, the keyed hash is HMAC-SHA-256 of
-- RFC 2104 of the whole text.
pub hmac_parts-rfc2104 :
    (key : List ℕ) (ps : List (List ℕ)) → hmac_parts key ps ≡ rfc2104 key (concat ps)
unfolding hmac_parts rfc2104
hmac_parts-rfc2104 key ps =
    finish_outer _ _
    ∙ ap₂ (λ o i. sha256 (o ++ i)) (pad 0x5c)
        (finish_pair (masked (block_key key) 0x36) ps
          ∙ ap (λ i. sha256 (i ++ concat ps)) (pad 0x36))
  where
    pad : (p : ℕ) → masked (block_key key) p ≡ map (λ b. bit_xor p b) (key_block key)
    pad p = masked-map (block_key key) p ∙ ap (map (λ b. bit_xor p b)) (block_key-key_block key)

    finish_outer : (o i : List ℕ) → finish (update (update new o) i) ≡ sha256 (o ++ i)
    finish_outer o i =
        unfold update_parts in
        finish_pair o (i ∷ []) ∙ unfold concat in ap (λ l. sha256 (o ++ l)) (append-nil i)
