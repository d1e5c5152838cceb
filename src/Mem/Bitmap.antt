-- ===== src/Mem/Bitmap.antt =====
-- The frame bitmap of kernel/src/mem/frame_alloc.rs: one bit for each 4 KiB frame, set while the
-- frame is used.
use barry_os.Common.{
  ℕ, ◌-◌, ◌/◌, ◌%◌, ◌*◌, ◌^◌, ◌<◌, ◌≡◌, ap, subst, ◌∙◌, List, Bool, true, false, ◌==◌,
  if◌then◌else◌, length, get_or, set, All, All-set, All-get_or, length-set, get_or-set_self,
  get_or-set_ne, bit_and, bit_or, arith, ℕ_discrete,
}
use barry_os.Common.Bits.{bit_of, bit_of-or, bit_of-clear, bit_or-byte, bit_and-byte}

abbrev pub bitmap_bytes : ℕ
bitmap_bytes = 8 * 1024

abbrev pub max_frames : ℕ
max_frames = bitmap_bytes * 8

unfoldable pub set_bit : List ℕ → ℕ → List ℕ
set_bit bm idx = set bm (idx / 8) (bit_or (get_or bm (idx / 8) 0) (2 ^ (idx % 8)))

unfoldable pub clear_bit : List ℕ → ℕ → List ℕ
clear_bit bm idx = set bm (idx / 8) (bit_and (get_or bm (idx / 8) 0) (255 - 2 ^ (idx % 8)))

unfoldable pub test_bit : List ℕ → ℕ → Bool
test_bit bm idx = bit_of (get_or bm (idx / 8) 0) (idx % 8)

-- The whole bitmap, of bytes.
pub record IsBitmap (bm : List ℕ) : Type 0 where
  pub sized : length bm ≡ bitmap_bytes
  pub bytes : All (λ b. b < 256) bm

pub set_bit-IsBitmap : (bm : List ℕ) (i : ℕ) → IsBitmap bm → IsBitmap (set_bit bm i)
unfolding set_bit
set_bit-IsBitmap bm i v = record {
  sized = length-set bm _ _ ∙ v.sized;
  bytes =
      All-set (λ b. b < 256) bm _ _
        (bit_or-byte _ _ (All-get_or (λ b. b < 256) bm _ 0 (omega arith) v.bytes) (omega arith))
        v.bytes;
}

pub clear_bit-IsBitmap : (bm : List ℕ) (i : ℕ) → IsBitmap bm → IsBitmap (clear_bit bm i)
unfolding clear_bit
clear_bit-IsBitmap bm i v = record {
  sized = length-set bm _ _ ∙ v.sized;
  bytes =
      All-set (λ b. b < 256) bm _ _
        (bit_and-byte _ _ (All-get_or (λ b. b < 256) bm _ 0 (omega arith) v.bytes) (omega arith))
        v.bytes;
}

-- The byte behind frame `j` after a write to the byte behind frame `i`.
byte-set :
    (bm : List ℕ) (i j w : ℕ)
    → IsBitmap bm
    → i < max_frames
    → i / 8 ≡ j / 8
    → get_or (set bm (i / 8) w) (j / 8) 0 ≡ w
byte-set bm i j w v hi e =
    subst (λ q. get_or (set bm (i / 8) w) q 0 ≡ w) e
      (get_or-set_self bm (i / 8) w 0 (omega (arith, v.sized)))

module _ (bm : List ℕ) (i j : ℕ) (v : IsBitmap bm) (hi : i < max_frames) where
  byte_at : get_or bm (i / 8) 0 < 256
  byte_at = All-get_or (λ b. b < 256) bm _ 0 (omega arith) v.bytes

  -- In the whole bitmap of bytes, setting the bit of a frame changes that bit alone.
  pub test_bit-set_bit : test_bit (set_bit bm i) j ≡ (if i == j then true else test_bit bm j)
  unfolding set_bit test_bit
  test_bit-set_bit = elim (ℕ_discrete (i / 8) (j / 8)) [
    | yes e ↦
        ap (λ c. bit_of c (j % 8)) (byte-set bm i j _ v hi e)
        ∙ bit_of-or _ (i % 8) (j % 8) byte_at (omega arith) (omega arith)
        ∙ rw (← e) (ground arith)
    | no ne ↦ ap (λ c. bit_of c (j % 8)) (get_or-set_ne bm (i / 8) (j / 8) _ 0 ne) ∙ ground arith
  ]

  -- In the whole bitmap of bytes, clearing the bit of a frame changes that bit alone.
  pub test_bit-clear_bit : test_bit (clear_bit bm i) j ≡ (if i == j then false else test_bit bm j)
  unfolding clear_bit test_bit
  test_bit-clear_bit = elim (ℕ_discrete (i / 8) (j / 8)) [
    | yes e ↦
        ap (λ c. bit_of c (j % 8)) (byte-set bm i j _ v hi e)
        ∙ bit_of-clear _ (i % 8) (j % 8) byte_at (omega arith) (omega arith)
        ∙ rw (← e) (ground arith)
    | no ne ↦ ap (λ c. bit_of c (j % 8)) (get_or-set_ne bm (i / 8) (j / 8) _ 0 ne) ∙ ground arith
  ]
