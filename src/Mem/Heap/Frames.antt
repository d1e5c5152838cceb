-- ===== src/Mem/Heap/Frames.antt =====
-- Where the heap comes from: a run of frames that the frame allocator then holds as used.
use barry_os.Mem.Bitmap.{max_frames}
use barry_os.Common.{
  ◌≡◌, ◌+◌, Bool-cases, ◌≤◌, ◌*◌, ◌^◌, ◌<◌, true, ◌==◌, inl, false, inr, arith, ◌∙◌, refl, ◌≢◌,
  ==→eq, ◌⊎◌,
}
use barry_os.Mem.FrameAlloc
use barry_os.Mem.FrameAlloc.{FrameAllocator, used}
use barry_os.Mem.FrameAlloc.Contig.{AllocatesRun, alloc_contig_lem, in_run, IsFreeRun}
use barry_os.Mem.FrameAlloc.Contig
use barry_os.Mem.FrameAlloc.Invariant
use barry_os.Mem.Heap.{BumpAlloc, init, empty, heap_size, heap_pages, start_at, ℕ}
use barry_os.Mem.Heap.Blocks.{IsValid}
use barry_os.Common.{inl, inr, subst}

at_bottom : (a : ℕ) → (a * 2 ^ 12 == 0) ≡ true → a ≡ 0
at_bottom a h = omega (arith, ==→eq (a * 2 ^ 12) 0 h)

-- The heap after `init`: absent, when the frames have no free run for it but perhaps at frame 0, or the whole of a run of frames, which are used from then on.
pub data Starts (fa : FrameAllocator) : BumpAlloc × FrameAllocator → Type 0 where
  absent :
      {fa' : FrameAllocator}
      → ((a : ℕ) → a ≢ 0 → a + heap_pages ≤ max_frames → IsFreeRun fa.bitmap a heap_pages → ⊥)
        ⊎ IsFreeRun fa.bitmap 0 heap_pages
      → Starts fa (empty, fa')
  placed :
      {h : BumpAlloc} {fa' : FrameAllocator}
      → h.next ≡ h.heap_start
      → h.heap_start + heap_size ≡ h.heap_end
      → IsValid h
      → ((f : ℕ) → h.heap_start ≤ f * 4096 → f * 4096 < h.heap_end → used fa' f ≡ true)
      → ((f : ℕ) → h.heap_start ≤ f * 4096 → f * 4096 < h.heap_end → used fa f ≡ false)
      → Starts fa (h, fa')

-- From a valid frame allocator the heap starts on a whole run of frames that were free and are
-- used from then on; it is absent only when no free run is long enough, or when the one at frame 0
-- is taken.
pub init_lem : (fa : FrameAllocator) → FrameAlloc.Invariant.IsValid fa → Starts fa (init empty fa)
unfolding init empty start_at
init_lem fa v = go (FrameAlloc.alloc_contig fa heap_pages) (alloc_contig_lem fa heap_pages v).0
  where
    go :
        (r : ℕ × FrameAllocator)
        → AllocatesRun fa heap_pages r
        → Starts fa (start_at empty r.0, r.1)
    go r (Contig.empty_request e) = absurd (omega arith)
    go r (Contig.refuses ne none_there) = absent (inl (λ a nz le run. none_there a le run))
    go r (Contig.takes {t} a ne le unused first marks counted) =
        elim (Bool-cases (a * 2 ^ 12 == 0)) [
          | inl bottom ↦
              rw (bottom, start_at)
                (absent (
                  inr (
                    subst (λ x. IsFreeRun fa.bitmap x heap_pages) {x = a} (at_bottom a bottom)
                      unused)))
          | inr above ↦
              rw (above, start_at)
                (placed refl (omega arith) (omega arith) (λ f lo hi. marks f ∙ ground arith)
                  (λ f lo hi. unused f (omega arith) (omega arith)))
        ]
