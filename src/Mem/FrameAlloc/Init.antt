-- ===== src/Mem/FrameAlloc/Init.antt =====
-- What `init` leaves free: the frames of usable regions outside the kernel's span.
use barry_os.Common.{
  ℕ, zero, suc, ◌+◌, ◌/◌, ◌%◌, ◌<◌, ◌≤◌, ◌≡◌, refl, ◌∙◌, List, Bool, true, not, ◌==◌, leb, ltb,
  ◌&&◌, ◌||◌, if◌then◌else◌, arith, length, get_or, set, All, length-set, All-set, get_or-set_self,
  get_or-set_ne, ℕ_discrete,
}
use barry_os.Common.Bits.{passes_under, passes_under-lt, bit_of}
use barry_os.Mem.Bitmap.{
  IsBitmap, bitmap_bytes, max_frames, test_bit, set_bit-IsBitmap, test_bit-set_bit,
}
use barry_os.Mem.MemMap.{MemMap}
use barry_os.Mem.FrameAlloc.{
  FrameAllocator, fill, free_regions, reserve_frame, reserve, init, used, first_kernel_frame,
  last_kernel_frame, kernel_frames,
}
use barry_os.Mem.FrameAlloc.Invariant.{IsValid}
use barry_os.Mem.FrameAlloc.Regions.{
  EndsInRange, usable_from, free_regions-IsBitmap, used-free_regions, hint-free_regions,
}

abbrev pub in_kernel : ℕ → Bool
in_kernel f = leb first_kernel_frame f && ltb f last_kernel_frame

fill-length : (k i : ℕ) (bm : List ℕ) → length (fill k i bm) ≡ length bm
unfolding fill
fill-length zero i bm = refl
fill-length (suc k) i bm = fill-length k (i + 1) _ ∙ length-set bm i 0xFF

fill-bytes : (k i : ℕ) (bm : List ℕ) → All (λ b. b < 256) bm → All (λ b. b < 256) (fill k i bm)
unfolding fill
fill-bytes zero i bm h = h
fill-bytes (suc k) i bm h =
    fill-bytes k (i + 1) _ (All-set (λ b. b < 256) bm i 0xFF (omega arith) h)

get_or-fill :
    (k i : ℕ) (bm : List ℕ) (j : ℕ)
    → i + k ≤ length bm
    → get_or (fill k i bm) j 0 ≡ (if leb i j && ltb j (i + k) then 0xFF else get_or bm j 0)
unfolding fill
get_or-fill zero i bm j h = ground arith
get_or-fill (suc k) i bm j h = elim (ℕ_discrete i j) [
  | yes e ↦ ground (
    arith,
    length-set bm i 0xFF,
    get_or-fill k (i + 1) (set bm i 0xFF) j,
    get_or-set_self bm i 0xFF 0,
  )
  | no ne ↦ ground (
    arith,
    length-set bm i 0xFF,
    get_or-fill k (i + 1) (set bm i 0xFF) j,
    get_or-set_ne bm i j 0xFF 0 ne,
  )
]

reserve_frame-IsBitmap : (bm : List ℕ) (f : ℕ) → IsBitmap bm → IsBitmap (reserve_frame bm f)
unfolding reserve_frame
reserve_frame-IsBitmap bm f v = ground (arith, set_bit-IsBitmap bm f v)

reserve-IsBitmap : (k f : ℕ) (bm : List ℕ) → IsBitmap bm → IsBitmap (reserve k f bm)
unfolding reserve
reserve-IsBitmap zero f bm v = v
reserve-IsBitmap (suc k) f bm v = reserve-IsBitmap k (f + 1) _ (reserve_frame-IsBitmap bm f v)

test_bit-reserve_frame :
    (bm : List ℕ) (f g : ℕ)
    → IsBitmap bm
    → g < max_frames
    → test_bit (reserve_frame bm f) g ≡ (if f == g then true else test_bit bm g)
unfolding reserve_frame
test_bit-reserve_frame bm f g v hg = ground (arith, test_bit-set_bit bm f g v)

test_bit-reserve :
    (k f : ℕ) (bm : List ℕ) (g : ℕ)
    → IsBitmap bm
    → g < max_frames
    → test_bit (reserve k f bm) g ≡ (if leb f g && ltb g (f + k) then true else test_bit bm g)
unfolding reserve
test_bit-reserve zero f bm g v hg = ground arith
test_bit-reserve (suc k) f bm g v hg = ground (
  arith,
  test_bit-reserve k (f + 1) (reserve_frame bm f) g (reserve_frame-IsBitmap bm f v) hg,
  test_bit-reserve_frame bm f g v hg,
)

-- Every byte of the filled bitmap is 0xFF, so every frame is used.
fill-IsBitmap : (bm : List ℕ) → IsBitmap bm → IsBitmap (fill bitmap_bytes 0 bm)
fill-IsBitmap bm v = record {
  sized = fill-length bitmap_bytes 0 bm ∙ v.sized;
  bytes = fill-bytes bitmap_bytes 0 bm v.bytes;
}

all_ones : (k : ℕ) → k < 8 → bit_of 0xFF k ≡ true
unfolding passes_under
all_ones k h = passes_under-lt (bit_of 0xFF) 8 k h refl

test_bit-fill :
    (bm : List ℕ) (f : ℕ)
    → IsBitmap bm
    → f < max_frames
    → test_bit (fill bitmap_bytes 0 bm) f ≡ true
unfolding test_bit
test_bit-fill bm f v hf =
    let byte : get_or (fill bitmap_bytes 0 bm) (f / 8) 0 ≡ 0xFF =
      ground (arith, get_or-fill bitmap_bytes 0 bm (f / 8), v.sized) in
    rw byte (all_ones (f % 8) (omega arith))

module _ (s : FrameAllocator) (mm : MemMap) (v : IsBitmap s.bitmap) where
  -- The state before the loop over the regions, and after it.
  filled : FrameAllocator
  filled = record s { bitmap = fill bitmap_bytes 0 s.bitmap; frames_total = max_frames }

  freed-IsBitmap : IsBitmap (free_regions mm mm.count 0 filled).bitmap
  unfolding filled
  freed-IsBitmap = free_regions-IsBitmap mm mm.count 0 filled (fill-IsBitmap s.bitmap v)

  -- After `init` from a bitmap of bytes and a map whose regions end within the word, a frame is
  -- free exactly if a usable region covers it and it lies outside the span of the kernel's image
  -- and stack.
  pub used-init :
      All EndsInRange mm.regions
      → (f : ℕ) → f < max_frames
      → used (init s mm) f ≡ (in_kernel f || not (usable_from mm mm.count 0 f))
  unfolding init filled
  used-init h f hf = ground (
    arith,
    test_bit-reserve kernel_frames first_kernel_frame (free_regions mm mm.count 0 filled).bitmap f
        freed-IsBitmap hf,
    used-free_regions mm mm.count 0 filled f (fill-IsBitmap s.bitmap v) h hf,
    test_bit-fill s.bitmap f v hf,
  )

  -- `init` makes a valid allocator, from a bitmap of bytes and a hint that is a frame number.
  pub init-IsValid : s.next_hint < max_frames → IsValid (init s mm)
  unfolding init filled
  init-IsValid h = record {
    bits = reserve-IsBitmap kernel_frames first_kernel_frame _ freed-IsBitmap;
    hint_in = rw (hint-free_regions mm mm.count 0 filled) h;
  }
