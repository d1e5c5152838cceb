-- ===== src/Mem/FrameAlloc/Count.antt =====
-- The counter `frames_used` against the bitmap, over any history of calls.
use barry_os.Common.{
  ℕ, zero, suc, ◌+◌, ◌%◌, ◌<◌, ◌≤◌, ◌≡◌, ◌∙◌, List, [], ◌∷◌, Bool, true, false, if◌then◌else◌,
  arith,
}
use barry_os.Common.Loops.{count_below, count_below-eq, count_below-set, count_below-clear}
use barry_os.Common.Words.{add64, u64_mod}
use barry_os.Mem.Bitmap.{max_frames}
use barry_os.Mem.FrameAlloc.{FrameAllocator, alloc, alloc_contig, free, used}
use barry_os.Mem.FrameAlloc.Invariant.{IsValid, used_frames}
use barry_os.Mem.FrameAlloc.Alloc.{Allocates, alloc_lem}
use barry_os.Mem.FrameAlloc.Alloc
use barry_os.Mem.FrameAlloc.Contig.{AllocatesRun, alloc_contig_lem, in_run}
use barry_os.Mem.FrameAlloc.Contig
use barry_os.Mem.FrameAlloc.Free.{Frees, gives_back, ignores, free_lem}

-- The counter is `d` short of the number of frames that the bitmap holds as used.
abbrev pub Tracks : ℕ → FrameAllocator → Type 0
Tracks d s = add64 s.frames_used d ≡ used_frames s % u64_mod

Allocates-Tracks :
    (d : ℕ) (s : FrameAllocator) {r : ℕ × FrameAllocator}
    → Allocates s r
    → Tracks d s
    → Tracks d r.1
Allocates-Tracks d s (Alloc.refuses full) h = h
Allocates-Tracks d s (Alloc.takes {t} idx j hi at skipped empty marks counted) h = omega (
  arith,
  h,
  counted,
  count_below-set max_frames idx (used s) (used t) hi empty (marks idx ∙ ground arith)
      (λ f lt ne. marks f ∙ ground arith),
)

-- A run of `n` tests that newly pass counts `n` more.
count_below-run :
    (n a : ℕ) (p : ℕ → Bool)
    → a + n ≤ max_frames
    → ((f : ℕ) → a ≤ f → f < a + n → p f ≡ false)
    → count_below max_frames (λ f. if in_run a n f then true else p f)
      ≡ count_below max_frames p + n
count_below-run zero a p h unused =
    count_below-eq max_frames _ p (λ f lt. ground arith) ∙ omega arith
count_below-run (suc n) a p h unused =
    count_below-set max_frames (a + n) (λ f. if in_run a n f then true else p f) _ (omega arith)
      (ground (arith, unused (a + n) (omega arith) (omega arith))) (ground arith)
      (λ f lt ne. ground arith)
    ∙ omega (arith, count_below-run n a p (omega arith) (λ f lo hi. unused f lo (omega arith)))

AllocatesRun-Tracks :
    (d : ℕ) (s : FrameAllocator) (n : ℕ) {r : ℕ × FrameAllocator}
    → AllocatesRun s n r
    → Tracks d s
    → Tracks d r.1
AllocatesRun-Tracks d s n (Contig.empty_request e) h = h
AllocatesRun-Tracks d s n (Contig.refuses ne none_there) h = h
AllocatesRun-Tracks d s n (Contig.takes {t} a ne le unused first marks counted) h = omega (
  arith,
  h,
  counted,
  count_below-eq max_frames (used t) (λ f. if in_run a n f then true else used s f)
      (λ f lt. marks f),
  count_below-run n a (used s) le unused,
)

Frees-Tracks :
    (d : ℕ) (s : FrameAllocator) (addr : ℕ) {t : FrameAllocator}
    → Frees s addr t
    → Tracks d s
    → Tracks d t
Frees-Tracks d s addr (ignores free_already) h = h
Frees-Tracks d s addr (gives_back {t} lt held clears fewer hint) h = omega (
  arith,
  h,
  fewer,
  count_below-clear max_frames _ (used s) (used t) lt held (clears _ ∙ ground arith)
      (λ f lt ne. clears f ∙ ground arith),
)

-- A client's calls.
pub data Call : Type 0 where
  allocs : Call
  allocs_contig : ℕ → Call
  frees : ℕ → Call

unfoldable pub step : FrameAllocator → Call → FrameAllocator
step s allocs = (alloc s).1
step s (allocs_contig n) = (alloc_contig s n).1
step s (frees addr) = free s addr

unfoldable pub run : FrameAllocator → List Call → FrameAllocator
run s [] = s
run s (c ∷ cs) = run (step s c) cs

step-Tracks :
    (d : ℕ) (s : FrameAllocator) (c : Call)
    → IsValid s
    → Tracks d s
    → IsValid (step s c) × Tracks d (step s c)
unfolding step
step-Tracks d s allocs v h = ((alloc_lem s v).1, Allocates-Tracks d s (alloc_lem s v).0 h)
step-Tracks d s (allocs_contig n) v h =
    ((alloc_contig_lem s n v).1, AllocatesRun-Tracks d s n (alloc_contig_lem s n v).0 h)
step-Tracks d s (frees addr) v h =
    ((free_lem s addr v).1, Frees-Tracks d s addr (free_lem s addr v).0 h)

-- Over any history of calls the allocator stays valid, and the counter `frames_used` stays as far
-- below the number of used frames in the bitmap as it was at the start.
pub run-Tracks :
    (d : ℕ) (s : FrameAllocator) (cs : List Call)
    → IsValid s
    → Tracks d s
    → IsValid (run s cs) × Tracks d (run s cs)
unfolding run
run-Tracks d s [] v h = (v, h)
run-Tracks d s (c ∷ cs) v h =
    let (v', h') = step-Tracks d s c v h in run-Tracks d (step s c) cs v' h'
