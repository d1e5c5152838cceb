-- ===== src/Mem/FrameAlloc/Regions.antt =====
-- The loops of `init` over the memory map: which frames they free.
use barry_os.Common.{
  ℕ, zero, suc, ◌+◌, ◌/◌, ◌^◌, ◌<◌, ◌≤◌, ◌≡◌, refl, ◌∙◌, Bool, false, ◌==◌, leb, ltb, ◌&&◌, ◌||◌,
  if◌then◌else◌, arith, get_or, All, All-get_or,
}
use barry_os.Common.Words.{add64, u64_mod}
use barry_os.Mem.Bitmap.{IsBitmap, max_frames, clear_bit-IsBitmap, test_bit-clear_bit}
use barry_os.Mem.MemMap.{MemMap, Region, blank, is_usable}
use barry_os.Mem.FrameAlloc.{
  FrameAllocator, page_shift, free_frame, free_region, free_if_usable, free_regions, used,
}

-- The frame lies in the region.
abbrev pub covers : Region → ℕ → Bool
covers r f = leb (r.start / 2 ^ page_shift) f && ltb f (r.start / 2 ^ page_shift + r.pages)

-- Some usable region of the map, of the `k` from number `i` on, covers the frame.
unfoldable pub usable_from : MemMap → ℕ → ℕ → ℕ → Bool
usable_from mm zero i f = false
usable_from mm (suc k) i f =
    let r : Region = get_or mm.regions i blank in
    (is_usable r.kind && covers r f) || usable_from mm k (i + 1) f

-- No region ends past the last page number.
abbrev pub EndsInRange : Region → Type 0
EndsInRange r = r.start / 2 ^ page_shift + r.pages ≤ u64_mod

free_frame-IsBitmap :
    (s : FrameAllocator) (f : ℕ) → IsBitmap s.bitmap → IsBitmap (free_frame s f).bitmap
unfolding free_frame
free_frame-IsBitmap s f v = ground (arith, clear_bit-IsBitmap s.bitmap f v)

used-free_frame :
    (s : FrameAllocator) (f g : ℕ)
    → IsBitmap s.bitmap
    → g < max_frames
    → used (free_frame s f) g ≡ (if f == g then false else used s g)
unfolding free_frame
used-free_frame s f g v hg = ground (arith, test_bit-clear_bit s.bitmap f g v)

free_region-IsBitmap :
    (first k j : ℕ) (s : FrameAllocator)
    → IsBitmap s.bitmap
    → IsBitmap (free_region first k j s).bitmap
unfolding free_region
free_region-IsBitmap first zero j s v = v
free_region-IsBitmap first (suc k) j s v =
    free_region-IsBitmap first k (j + 1) _ (free_frame-IsBitmap s _ v)

used-free_region :
    (first k j : ℕ) (s : FrameAllocator) (f : ℕ)
    → IsBitmap s.bitmap
    → first + j + k ≤ u64_mod
    → f < max_frames
    → used (free_region first k j s) f
      ≡ (if leb (first + j) f && ltb f (first + j + k) then false else used s f)
unfolding free_region
used-free_region first zero j s f v h hf = ground arith
used-free_region first (suc k) j s f v h hf =
    let here : add64 first j ≡ first + j = omega arith in
    ground (
      arith,
      used-free_region first k (j + 1) (free_frame s (add64 first j)) f (free_frame-IsBitmap s _ v)
          (omega arith) hf,
      used-free_frame s (add64 first j) f v hf,
      here,
    )

free_if_usable-IsBitmap :
    (s : FrameAllocator) (r : Region) → IsBitmap s.bitmap → IsBitmap (free_if_usable s r).bitmap
unfolding free_if_usable
free_if_usable-IsBitmap s r v =
    ground (arith, free_region-IsBitmap (r.start / 2 ^ page_shift) r.pages 0 s v)

used-free_if_usable :
    (s : FrameAllocator) (r : Region) (f : ℕ)
    → IsBitmap s.bitmap
    → EndsInRange r
    → f < max_frames
    → used (free_if_usable s r) f ≡ (if is_usable r.kind && covers r f then false else used s f)
unfolding free_if_usable
used-free_if_usable s r f v h hf =
    ground (arith, used-free_region (r.start / 2 ^ page_shift) r.pages 0 s f v (omega arith) hf)

pub free_regions-IsBitmap :
    (mm : MemMap) (k i : ℕ) (s : FrameAllocator)
    → IsBitmap s.bitmap
    → IsBitmap (free_regions mm k i s).bitmap
unfolding free_regions
free_regions-IsBitmap mm zero i s v = v
free_regions-IsBitmap mm (suc k) i s v =
    free_regions-IsBitmap mm k (i + 1) _ (free_if_usable-IsBitmap s _ v)

pub used-free_regions :
    (mm : MemMap) (k i : ℕ) (s : FrameAllocator) (f : ℕ)
    → IsBitmap s.bitmap
    → All EndsInRange mm.regions
    → f < max_frames
    → used (free_regions mm k i s) f ≡ (if usable_from mm k i f then false else used s f)
unfolding free_regions usable_from
used-free_regions mm zero i s f v h hf = refl
used-free_regions mm (suc k) i s f v h hf =
    let r : Region = get_or mm.regions i blank in
    ground (
      arith,
      used-free_regions mm k (i + 1) (free_if_usable s r) f (free_if_usable-IsBitmap s r v) h hf,
      used-free_if_usable s r f v (All-get_or EndsInRange mm.regions i blank (omega arith) h) hf,
    )

-- None of them moves the hint.
hint-free_frame : (s : FrameAllocator) (f : ℕ) → (free_frame s f).next_hint ≡ s.next_hint
unfolding free_frame
hint-free_frame s f = ground arith

hint-free_region :
    (first k j : ℕ) (s : FrameAllocator) → (free_region first k j s).next_hint ≡ s.next_hint
unfolding free_region
hint-free_region first zero j s = refl
hint-free_region first (suc k) j s =
    hint-free_region first k (j + 1) _ ∙ hint-free_frame s (add64 first j)

hint-free_if_usable :
    (s : FrameAllocator) (r : Region) → (free_if_usable s r).next_hint ≡ s.next_hint
unfolding free_if_usable
hint-free_if_usable s r = ground (arith, hint-free_region (r.start / 2 ^ page_shift) r.pages 0 s)

pub hint-free_regions :
    (mm : MemMap) (k i : ℕ) (s : FrameAllocator) → (free_regions mm k i s).next_hint ≡ s.next_hint
unfolding free_regions
hint-free_regions mm zero i s = refl
hint-free_regions mm (suc k) i s =
    hint-free_regions mm k (i + 1) _ ∙ hint-free_if_usable s (get_or mm.regions i blank)
