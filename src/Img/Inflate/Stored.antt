-- ===== src/Img/Inflate/Stored.antt =====
-- What is stored without compression is read back.
use barry_os.Common.BitOps.{bit_or_above, bit_xor_full}
use barry_os.Img.Inflate.{le16, stored, inflate, blocks, block}
use barry_os.Img.Outcome.{ok}
use barry_os.Img.Bits.{Bits, take_bits, refill, load_byte, align, new, bits_left}
use barry_os.Common.{
  ℕ, List, ◌∷◌, ◌<◌, ◌++◌, length, ◌%◌, get_or, [], ◌≡◌, ◌/◌, ◌-◌, ◌+◌, gt→leb, refl, suc, ap₂,
  arith, bit_or, ◌^◌, ◌≤◌, ◌*◌, zero, ◌∙◌, take, drop, eq→==, ge→ltb, length-append, get_or-append,
  ap, concat, All, drop-append, take-append, subst, if◌then◌else◌, append-nil, ◌==◌, sym,
  append_assoc,
}

-- A stored block: its header byte, the length and its complement, and the bytes.
abbrev pub stored_block : ℕ → List ℕ → List ℕ
stored_block last d =
    last
    ∷ (length d % 256)
    ∷ (length d / 256)
    ∷ ((65535 - length d) % 256)
    ∷ ((65535 - length d) / 256)
    ∷ d

-- The chunks as stored blocks, and an empty block that is the last.
unfoldable pub store : List (List ℕ) → List ℕ
store [] = stored_block 1 []
store (c ∷ cs) = stored_block 0 c ++ store cs

-- A reader between two stored blocks.
abbrev standing : List ℕ → ℕ → Bits
standing src at = record { src = src; at = at; buf = 0; n = 0 }

-- The reader behind the header.
abbrev behind : List ℕ → ℕ → ℕ → Bits
behind src at n = record { src = src; at = at; buf = 0; n = n }

first_bit :
    (src : List ℕ) (at last : ℕ)
    → at < length src
    → get_or src at 0 ≡ last
    → last < 2
    → take_bits (standing src at) 1 ≡ ok (last, behind src (at + 1) 7)
unfolding take_bits refill load_byte
first_bit src at zero inside header flag = rw (gt→leb (length src) at inside, header)
first_bit src at (suc zero) inside header flag = rw (gt→leb (length src) at inside, header)
first_bit src at (suc (suc n)) inside header flag = absurd (omega arith)

kind_bits : (src : List ℕ) (at : ℕ) → take_bits (behind src at 7) 2 ≡ ok (0, behind src at 5)
unfolding take_bits refill
kind_bits src at = refl

le16-bytes :
    (src : List ℕ) (i v : ℕ)
    → get_or src i 0 ≡ v % 256
    → get_or src (i + 1) 0 ≡ v / 256
    → le16 src i ≡ v
unfolding le16
le16-bytes src i v lo hi =
    ap₂ (λ a b. bit_or a (b * 2 ^ 8)) lo hi
    ∙ bit_or_above 8 (v % 256) (v / 256) (omega arith)
    ∙ omega arith

-- The block's length, its complement and its bytes stand where they are looked for.
stored_lem :
    (src out d : List ℕ) (at limit : ℕ)
    → length d < 2 ^ 16
    → le16 src at ≡ length d
    → le16 src (at + 2) ≡ 65535 - length d
    → at + 4 + length d ≤ length src
    → take (length d) (drop (at + 4) src) ≡ d
    → length out + length d ≤ limit
    → stored (behind src at 5) out limit ≡ ok (out ++ d, standing src (at + 4 + length d))
unfolding stored align
stored_lem src out d at limit fits len complement inside bytes room =
    let here : at - 5 / 8 ≡ at = omega arith in
    rw (
      here,
      ge→ltb (length src) (at + 4) (omega arith),
      len,
      complement,
      bit_xor_full 16 (length d) fits,
      eq→== (65535 - length d) (65535 - length d) refl,
      ge→ltb (length src) (at + 4 + length d) inside,
      ge→ltb limit (length out + length d) room,
      bytes,
    )

block-stored : (b : Bits) (out : List ℕ) (limit : ℕ) → block 0 b out limit ≡ stored b out limit
unfolding block
block-stored b out limit = refl

-- One round of the loop, from the results of its parts.
blocks_after :
    (b : Bits) (fuel limit : ℕ) (out : List ℕ) {last kind : ℕ} {r s u : Bits} {out' : List ℕ}
    → take_bits b 1 ≡ ok (last, r)
    → take_bits r 2 ≡ ok (kind, s)
    → block kind s out limit ≡ ok (out', u)
    → blocks (suc fuel) b out limit
      ≡ (let rest = blocks fuel u out' limit in if last == 1 then ok out' else rest)
unfolding blocks
blocks_after b fuel limit out first second third = rw (first, second, third)

module _ (pre d post : List ℕ) (last at : ℕ) (here : at ≡ length pre) where
  -- The input around one stored block.
  abbrev around : List ℕ
  around = pre ++ (stored_block last d ++ post)

  byte_at : (k n : ℕ) → n ≡ at + k → get_or around n 0 ≡ get_or (stored_block last d ++ post) k 0
  byte_at k n e = get_or-append pre (stored_block last d ++ post) n k 0 (omega (arith, here))

  around-length : length around ≡ at + 5 + length d + length post
  around-length = omega (
    arith,
    here,
    length-append pre (stored_block last d ++ post),
    length-append (stored_block last d) post,
  )

  around-bytes : take (length d) (drop (at + 1 + 4) around) ≡ d
  around-bytes =
      ap (take (length d))
        (drop-append pre (stored_block last d ++ post) (at + 1 + 4) 5 (omega (arith, here)))
      ∙ take-append d post (length d) refl

  block_step :
      (fuel limit : ℕ) (out : List ℕ)
      → last < 2
      → length d < 2 ^ 16
      → length out + length d ≤ limit
      → blocks (suc fuel) (standing around at) out limit ≡ (
          let rest = blocks fuel (standing around (at + 1 + 4 + length d)) (out ++ d) limit in
          if last == 1 then ok (out ++ d) else rest)
  block_step fuel limit out flag fits room =
      blocks_after (standing around at) fuel limit out
        (first_bit around at last inside (byte_at 0 at (omega arith)) flag)
        (kind_bits around (at + 1))
        (block-stored (behind around (at + 1) 5) out limit
          ∙ stored_lem around out d (at + 1) limit fits
              (le16-bytes around (at + 1) (length d) (byte_at 1 (at + 1) refl)
                (byte_at 2 (at + 1 + 1) (omega arith)))
              (le16-bytes around (at + 1 + 2) (65535 - length d)
                (byte_at 3 (at + 1 + 2) (omega arith)) (byte_at 4 (at + 1 + 2 + 1) (omega arith)))
              (omega (arith, around-length)) around-bytes room)
    where
      inside : at < length around
      inside = omega (arith, around-length)

-- A chunk whose length fits the two bytes of a block.
abbrev pub IsChunk : List ℕ → Type 0
IsChunk c = length c < 2 ^ 16

blocks-store :
    (cs : List (List ℕ)) (pre out : List ℕ) (at fuel limit : ℕ)
    → at ≡ length pre
    → All IsChunk cs
    → length out + length (concat cs) ≤ limit
    → length cs < fuel
    → blocks fuel (standing (pre ++ store cs) at) out limit ≡ ok (out ++ concat cs)
unfolding store concat
blocks-store cs pre out at zero limit here fits room enough = absurd (omega arith)
blocks-store [] pre out at (suc fuel) limit here fits room enough =
    subst (λ p. blocks (suc fuel) (standing (pre ++ p) at) out limit ≡ ok (out ++ []))
      (append-nil (stored_block 1 []))
      (block_step pre [] [] 1 at here fuel limit out (omega arith) (omega arith)
        (omega (arith, room)))
blocks-store (c ∷ cs) pre out at (suc fuel) limit here fits room enough =
    block_step pre c (store cs) 0 at here fuel limit out (omega arith) fits.0
      (omega (arith, length-append c (concat cs)))
    ∙ ap (λ s. blocks fuel (standing s (at + 1 + 4 + length c)) (out ++ c) limit)
        (sym (append_assoc pre (stored_block 0 c) (store cs)))
    ∙ blocks-store cs (pre ++ stored_block 0 c) (out ++ c) (at + 1 + 4 + length c) fuel limit
        (omega (arith, here, length-append pre (stored_block 0 c))) fits.1
        (omega (arith, room, length-append c (concat cs), length-append out c)) (omega arith)
    ∙ ap ok (append_assoc out c (concat cs))

length-store : (cs : List (List ℕ)) → length cs < length (store cs)
unfolding store
length-store [] = omega arith
length-store (c ∷ cs) = omega (arith, length-store cs, length-append (stored_block 0 c) (store cs))

-- Chunks of at most 65535 bytes that are stored without compression, and whose bytes are within the
-- limit, are read back.
pub inflate-store :
    (cs : List (List ℕ)) (limit : ℕ)
    → All IsChunk cs
    → length (concat cs) ≤ limit
    → inflate (store cs) limit ≡ ok (concat cs)
unfolding inflate new bits_left
inflate-store cs limit fits room =
    blocks-store cs [] [] 0 (suc (bits_left (new (store cs)))) limit refl fits (omega arith)
      (omega (arith, length-store cs))
