-- ===== src/Mem/FrameAlloc/Contig.antt =====
-- What `alloc_contig` returns, and what it changes.
use barry_os.Common.{
  ℕ, zero, suc, ◌+◌, ◌-◌, ◌*◌, ◌^◌, ◌<◌, ◌≤◌, ◌≡◌, ◌≢◌, refl, subst, inl, inr, List, true, false,
  none, some, ◌==◌, if◌then◌else◌, leb, ltb, ◌&&◌, Bool, Bool-cases, Option-cases, arith, dec_lt,
  ℕ_discrete, clash, some-eq, none-ne-some, eq→==, ne→==, sym,
}
use barry_os.Common.Words.{add64}
use barry_os.Mem.Bitmap.{
  IsBitmap, max_frames, test_bit, set_bit, set_bit-IsBitmap, test_bit-set_bit,
}
use barry_os.Mem.FrameAlloc.{FrameAllocator, page_shift, find_run, set_bits, alloc_contig, used}
use barry_os.Mem.FrameAlloc.Invariant.{IsValid}

-- The frames `[a, a + n)` are all free.
abbrev pub IsFreeRun : List ℕ → ℕ → ℕ → Type 0
IsFreeRun bm a n = (f : ℕ) → a ≤ f → f < a + n → test_bit bm f ≡ false

-- The state of the scan before frame `i`: the last `run` frames are free, and no run of `n` frames
-- starts before them.
record Scanning (bm : List ℕ) (n i run run_start : ℕ) : Type 0 where
  within : run ≤ i
  short : run < n
  starts : run ≢ 0 → run_start + run ≡ i
  unused : IsFreeRun bm (i - run) run
  earliest : (a : ℕ) → a < i - run → IsFreeRun bm a n → ⊥

module _ (bm : List ℕ) (n : ℕ) where
  start_of : ℕ → ℕ → ℕ → ℕ
  start_of i run run_start = if run == 0 then i else run_start

  Scanning-used :
      {i run run_start : ℕ}
      → Scanning bm n i run run_start
      → test_bit bm i ≡ true
      → Scanning bm n (i + 1) 0 run_start
  Scanning-used {i} {run} s full = record {
    within = omega arith;
    short = omega (arith, s.short);
    starts = λ ne. absurd (ne refl);
    unused = λ f lo hi. absurd (omega arith);
    earliest = λ a lt r. elim (dec_lt a (i - run)) [
      | yes before ↦ s.earliest a before r
      | no after ↦ clash full (r i (omega arith) (omega arith))
    ];
  }

  Scanning-unused :
      {i run run_start : ℕ}
      → Scanning bm n i run run_start
      → test_bit bm i ≡ false
      → run + 1 ≢ n
      → Scanning bm n (i + 1) (run + 1) (start_of i run run_start)
  unfolding start_of
  Scanning-unused {i} {run} s empty ne = record {
    within = omega (arith, s.within);
    short = omega (arith, s.short);
    starts = λ _. ground (arith, s.starts, s.within);
    unused = λ f lo hi. elim (dec_lt f i) [
      | yes before ↦ s.unused f (omega (arith, s.within)) (omega (arith, s.within))
      | no at ↦ subst (λ g. test_bit bm g ≡ false) (omega (arith, s.within)) empty
    ];
    earliest = λ a lt. s.earliest a (omega arith);
  }

  Scanning-found :
      {i run run_start : ℕ}
      → Scanning bm n i run run_start
      → test_bit bm i ≡ false
      → run + 1 ≡ n
      → let a = start_of i run run_start in
        (a + n ≡ i + 1) × IsFreeRun bm a n × ((b : ℕ) → b < a → IsFreeRun bm b n → ⊥)
  unfolding start_of
  Scanning-found {i} {run} {run_start} s empty e =
      let a = start_of i run run_start in
      let at : a + n ≡ i + 1 = ground (arith, s.starts, s.within) in
      (
        at,
        λ f lo hi. elim (dec_lt f i) [
          | yes before ↦ s.unused f (omega (arith, s.within)) (omega (arith, s.within))
          | no here ↦ subst (λ g. test_bit bm g ≡ false) (omega (arith, s.within)) empty
        ],
        λ b lt. s.earliest b (omega (arith, s.within)),
      )

  find_run-some :
      (k i run run_start : ℕ) {a : ℕ}
      → Scanning bm n i run run_start
      → find_run bm n k i run run_start ≡ some a
      → (a + n ≤ i + k) × IsFreeRun bm a n × ((b : ℕ) → b < a → IsFreeRun bm b n → ⊥)
  unfolding find_run start_of
  find_run-some zero i run run_start s e = absurd (none-ne-some e)
  find_run-some (suc k) i run run_start {a} s e = elim (Bool-cases (test_bit bm i)) [
    | inl full ↦
        let (le, r, first) =
          find_run-some k (i + 1) 0 run_start (Scanning-used s full) (rw full at e) in
        (omega arith, r, first)
    | inr empty ↦ elim (ℕ_discrete (run + 1) n) [
      | yes full ↦
          let (at, r, first) = Scanning-found s empty full in
          let here : start_of i run run_start ≡ a = some-eq (rw (empty, eq→== _ _ full) at e) in
          rw (← here) (omega arith, r, first)
      | no more ↦
          let rest =
            find_run-some k (i + 1) (run + 1) (start_of i run run_start)
              (Scanning-unused s empty more) (rw (empty, ne→== _ _ more) at e) in
          (omega (arith, rest.0), rest.1, rest.2)
    ]
  ]

  find_run-none :
      (k i run run_start : ℕ)
      → Scanning bm n i run run_start
      → find_run bm n k i run run_start ≡ none
      → (a : ℕ) → a + n ≤ i + k
      → IsFreeRun bm a n
      → ⊥
  unfolding find_run start_of
  find_run-none zero i run run_start s e = λ a le. s.earliest a (omega (arith, s.short, s.within))
  find_run-none (suc k) i run run_start s e = elim (Bool-cases (test_bit bm i)) [
    | inl full ↦ λ a le.
        find_run-none k (i + 1) 0 run_start (Scanning-used s full) (rw full at e) a (omega arith)
    | inr empty ↦ elim (ℕ_discrete (run + 1) n) [
      | yes full ↦ absurd (none-ne-some (sym (rw (empty, eq→== _ _ full) at e)))
      | no more ↦ λ a le.
          find_run-none k (i + 1) (run + 1) (start_of i run run_start)
            (Scanning-unused s empty more) (rw (empty, ne→== _ _ more) at e) a (omega arith)
    ]
  ]

  Scanning-start : n ≢ 0 → Scanning bm n 0 0 0
  Scanning-start ne = record {
    within = omega arith;
    short = omega arith;
    starts = λ h. absurd (h refl);
    unused = λ f lo hi. absurd (omega arith);
    earliest = λ a lt. absurd (omega arith);
  }

abbrev pub in_run : ℕ → ℕ → ℕ → Bool
in_run a n f = leb a f && ltb f (a + n)

set_bits-IsBitmap : (k f : ℕ) (bm : List ℕ) → IsBitmap bm → IsBitmap (set_bits k f bm)
unfolding set_bits
set_bits-IsBitmap zero f bm v = v
set_bits-IsBitmap (suc k) f bm v = set_bits-IsBitmap k (f + 1) _ (set_bit-IsBitmap bm f v)

test_bit-set_bits :
    (k f : ℕ) (bm : List ℕ) (j : ℕ)
    → IsBitmap bm
    → f + k ≤ max_frames
    → test_bit (set_bits k f bm) j ≡ (if in_run f k j then true else test_bit bm j)
unfolding set_bits
test_bit-set_bits zero f bm j v h = ground arith
test_bit-set_bits (suc k) f bm j v h = ground (
  arith,
  test_bit-set_bits k (f + 1) (set_bit bm f) j (set_bit-IsBitmap bm f v),
  test_bit-set_bit bm f j v,
)

-- What one call of `alloc_contig` for `n` frames does.
pub data AllocatesRun (s : FrameAllocator) (n : ℕ) : ℕ × FrameAllocator → Type 0 where
  takes :
      {t : FrameAllocator} (a : ℕ)
      → n ≢ 0
      → a + n ≤ max_frames
      → IsFreeRun s.bitmap a n
      → ((b : ℕ) → b < a → IsFreeRun s.bitmap b n → ⊥)
      → ((f : ℕ) → used t f ≡ (if in_run a n f then true else used s f))
      → t.frames_used ≡ add64 s.frames_used n
      → AllocatesRun s n (a * 2 ^ page_shift, t)
  empty_request : n ≡ 0 → AllocatesRun s n (0, s)
  refuses :
      n ≢ 0 → ((a : ℕ) → a + n ≤ max_frames → IsFreeRun s.bitmap a n → ⊥) → AllocatesRun s n (0, s)

-- On a valid allocator `alloc_contig` takes the lowest run of `n` free frames and marks and counts
-- exactly these; it returns 0 and changes nothing for `n = 0` and when no run is long enough. The
-- allocator stays valid.
pub alloc_contig_lem :
    (s : FrameAllocator) (n : ℕ)
    → IsValid s
    → AllocatesRun s n (alloc_contig s n) × IsValid (alloc_contig s n).1
unfolding alloc_contig
alloc_contig_lem s n v = elim (ℕ_discrete n 0) [
  | yes e ↦ rw (eq→== _ _ e) (empty_request e, v)
  | no ne ↦ elim (Option-cases (find_run s.bitmap n max_frames 0 0 0)) [
    | inl e ↦
        rw (ne→== _ _ ne, e, alloc_contig)
          (
            refuses ne (find_run-none s.bitmap n max_frames 0 0 0 (Scanning-start s.bitmap n ne) e),
            v,
          )
    | inr (a, e) ↦
        let found = find_run-some s.bitmap n max_frames 0 0 0 (Scanning-start s.bitmap n ne) e in
        let le : a + n ≤ max_frames = omega (arith, found.0) in
        rw (ne→== _ _ ne, e, alloc_contig)
          (
            takes a ne le found.1 found.2 (λ f. test_bit-set_bits n a s.bitmap f v.bits le) refl,
            record { bits = set_bits-IsBitmap n a s.bitmap v.bits; hint_in = omega arith },
          )
  ]
]
