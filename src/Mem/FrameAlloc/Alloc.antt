-- ===== src/Mem/FrameAlloc/Alloc.antt =====
-- What `alloc` returns, and what it changes.
use barry_os.Common.{
  ℕ, zero, suc, ◌+◌, ◌-◌, ◌*◌, ◌%◌, ◌^◌, ◌<◌, ◌≤◌, ◌≡◌, refl, subst, inl, inr, List, true, false,
  none, some, ◌==◌, if◌then◌else◌, Bool-cases, Option-cases, arith,
}
use barry_os.Common.Loops.{range_cons}
use barry_os.Common.Words.{add64}
use barry_os.Mem.Bitmap.{max_frames, test_bit, set_bit-IsBitmap, test_bit-set_bit}
use barry_os.Mem.FrameAlloc.{FrameAllocator, page_shift, find_free, alloc, used}
use barry_os.Mem.FrameAlloc.Invariant.{IsValid}

-- The scan finds the first free frame of its rounds.
find_free-some :
    (bm : List ℕ) (start k i : ℕ) {idx : ℕ}
    → find_free bm start k i ≡ some idx
    → (j : ℕ) × (j < i + k)
      × (idx ≡ (start + j) % max_frames)
      × (test_bit bm idx ≡ false)
      × ((m : ℕ) → i ≤ m → m < j → test_bit bm ((start + m) % max_frames) ≡ true)
unfolding find_free
find_free-some bm start zero i e = absurd (ground arith)
find_free-some bm start (suc k) i {idx} e =
    elim (Bool-cases (test_bit bm ((start + i) % max_frames))) [
      | inl full ↦
          let (j, lt, at, unused, skipped) = find_free-some bm start k (i + 1) (rw full at e) in
          (j, omega arith, at, unused, range_cons _ i j full skipped)
      | inr empty ↦
          let at : some ((start + i) % max_frames) ≡ some idx = rw empty at e in
          (i, omega arith, cc, rw (← at_some at) empty, λ m lo hi. absurd (omega arith))
    ]
  where
    at_some : some ((start + i) % max_frames) ≡ some idx → (start + i) % max_frames ≡ idx
    at_some h = cc

find_free-none :
    (bm : List ℕ) (start k i : ℕ)
    → find_free bm start k i ≡ none
    → (m : ℕ) → i ≤ m
    → m < i + k
    → test_bit bm ((start + m) % max_frames) ≡ true
unfolding find_free
find_free-none bm start zero i e = λ m lo hi. absurd (omega arith)
find_free-none bm start (suc k) i e = elim (Bool-cases (test_bit bm ((start + i) % max_frames))) [
  | inl full ↦
      range_cons _ i (i + suc k) full
        λ m lo hi. find_free-none bm start k (i + 1) (rw full at e) m lo (omega arith)
  | inr empty ↦ absurd (ground arith)
]

-- With no free frame from the hint on, going round, there is none at all.
all_used :
    (bm : List ℕ) (start : ℕ)
    → start < max_frames
    → find_free bm start max_frames 0 ≡ none
    → (f : ℕ) → f < max_frames
    → test_bit bm f ≡ true
all_used bm start hs e f hf =
    let m = (f + max_frames - start) % max_frames in
    subst (λ g. test_bit bm g ≡ true) (omega arith)
      (find_free-none bm start max_frames 0 e m (omega arith) (omega arith))

-- What one call of `alloc` does: it takes the first free frame from the hint on, going round, or
-- there is none and it changes nothing.
pub data Allocates (s : FrameAllocator) : ℕ × FrameAllocator → Type 0 where
  takes :
      {t : FrameAllocator} (idx j : ℕ)
      → idx < max_frames
      → idx ≡ (s.next_hint + j) % max_frames
      → ((m : ℕ) → 0 ≤ m → m < j → used s ((s.next_hint + m) % max_frames) ≡ true)
      → used s idx ≡ false
      → ((f : ℕ) → used t f ≡ (if idx == f then true else used s f))
      → t.frames_used ≡ add64 s.frames_used 1
      → Allocates s (idx * 2 ^ page_shift, t)
  refuses : ((f : ℕ) → f < max_frames → used s f ≡ true) → Allocates s (0, s)

-- On a valid allocator `alloc` takes the first free frame from the hint on around the table, marks
-- that frame alone and counts it, or it returns 0 when no frame is free and changes nothing; the
-- allocator stays valid.
pub alloc_lem : (s : FrameAllocator) → IsValid s → Allocates s (alloc s) × IsValid (alloc s).1
unfolding alloc
alloc_lem s v = elim (Option-cases (find_free s.bitmap s.next_hint max_frames 0)) [
  | inl e ↦ rw (e, alloc) (refuses (all_used s.bitmap s.next_hint v.hint_in e), v)
  | inr (idx, e) ↦
      let (j, lt, at, unused, skipped) = find_free-some s.bitmap s.next_hint max_frames 0 e in
      let hi : idx < max_frames = omega arith in
      rw (e, alloc)
        (
          takes idx j hi at skipped unused (λ f. test_bit-set_bit s.bitmap idx f v.bits hi) refl,
          record { bits = set_bit-IsBitmap s.bitmap idx v.bits; hint_in = omega arith },
        )
]
