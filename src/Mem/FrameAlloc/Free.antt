-- ===== src/Mem/FrameAlloc/Free.antt =====
-- What `free` changes, and that it undoes `alloc`.
use barry_os.Common.{
  ℕ, ◌*◌, ◌/◌, ◌^◌, ◌<◌, ◌≡◌, refl, subst, ◌∙◌, inl, inr, true, false, ◌==◌, ltb, if◌then◌else◌,
  Bool-cases, arith, clash, dec_lt, lt→ltb, ge→ltb,
}
use barry_os.Common.Words.{sub64, u64_mod}
use barry_os.Mem.Bitmap.{max_frames, clear_bit-IsBitmap, test_bit-clear_bit}
use barry_os.Mem.FrameAlloc.{FrameAllocator, page_shift, free, alloc, used}
use barry_os.Mem.FrameAlloc.Invariant.{IsValid}
use barry_os.Mem.FrameAlloc.Alloc.{Allocates, takes, refuses, alloc_lem}

-- What one call of `free` does to the frame of an address.
pub data Frees (s : FrameAllocator) (addr : ℕ) : FrameAllocator → Type 0 where
  gives_back :
      {t : FrameAllocator}
      → addr / 2 ^ page_shift < max_frames
      → used s (addr / 2 ^ page_shift) ≡ true
      → ((f : ℕ) → used t f ≡ (if addr / 2 ^ page_shift == f then false else used s f))
      → t.frames_used ≡ sub64 s.frames_used 1
      → t.next_hint
        ≡ (if ltb (addr / 2 ^ page_shift) s.next_hint then addr / 2 ^ page_shift else s.next_hint)
      → Frees s addr t
  ignores :
      (addr / 2 ^ page_shift < max_frames → used s (addr / 2 ^ page_shift) ≡ false) → Frees s addr s

-- On a valid allocator `free` of an address in a used frame of the bitmap releases that frame alone,
-- uncounts it and moves the hint down to it; any other address changes nothing. The allocator stays
-- valid.
pub free_lem :
    (s : FrameAllocator) (addr : ℕ) → IsValid s → Frees s addr (free s addr) × IsValid (free s addr)
unfolding free
free_lem s addr v =
    let idx = addr / 2 ^ page_shift in
    elim (dec_lt idx max_frames) [
      | no past ↦ rw (ge→ltb idx max_frames (omega arith)) (ignores (λ lt. absurd (past lt)), v)
      | yes lt ↦ elim (Bool-cases (used s idx)) [
        | inr unused ↦ rw (lt→ltb _ _ lt, unused) (ignores (λ _. unused), v)
        | inl held ↦
            rw (lt→ltb _ _ lt, held)
              (
                gives_back lt held (λ f. test_bit-clear_bit s.bitmap idx f v.bits lt) refl refl,
                record {
                  bits = clear_bit-IsBitmap s.bitmap idx v.bits;
                  hint_in = ground (arith, v.hint_in);
                },
              )
      ]
    ]

-- On a valid allocator with a free frame, freeing what `alloc` has just handed out gives back the
-- bitmap and the count.
free-alloc :
    (s : FrameAllocator)
    → IsValid s
    → s.frames_used < u64_mod
    → (g : ℕ) → g < max_frames
    → used s g ≡ false
    → let (addr, t) = alloc s in
      ((f : ℕ) → used (free t addr) f ≡ used s f) × ((free t addr).frames_used ≡ s.frames_used)
free-alloc s v small g hg unused = go (alloc s) (alloc_lem s v).0 (alloc_lem s v).1
  where
    go :
        (r : ℕ × FrameAllocator)
        → Allocates s r
        → IsValid r.1
        → ((f : ℕ) → used (free r.1 r.0) f ≡ used s f)
          × ((free r.1 r.0).frames_used ≡ s.frames_used)
    go r (refuses full) w = absurd (clash (full g hg) unused)
    go r (takes {t} idx j hi at skipped empty marks counted) w =
        undone (free t (idx * 2 ^ page_shift)) (free_lem t (idx * 2 ^ page_shift) w).0
      where
        back : idx * 2 ^ page_shift / 2 ^ page_shift ≡ idx
        back = omega arith

        undone :
            (u : FrameAllocator)
            → Frees t (idx * 2 ^ page_shift) u
            → ((f : ℕ) → used u f ≡ used s f) × (u.frames_used ≡ s.frames_used)
        undone u (gives_back lt held clears fewer hint) =
            (λ f. ground (arith, clears f, marks f, back), omega (arith, fewer, counted))
        undone u (ignores free_already) = absurd (
            clash {b = used t idx} (marks idx ∙ ground arith)
              (subst (λ q. used t q ≡ false) back (free_already (omega arith))))
