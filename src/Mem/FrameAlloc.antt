-- ===== src/Mem/FrameAlloc.antt =====
-- kernel/src/mem/frame_alloc.rs: the physical frame allocator. The static bitmap is a field of the
-- allocator's state, since there is one of each.
pub mod Invariant
pub mod Alloc
pub mod Contig
pub mod Free
pub mod Regions
pub mod Count
pub mod Init
use barry_os.Common.{
  ℕ, zero, suc, ◌+◌, ◌-◌, ◌*◌, ◌/◌, ◌%◌, ◌^◌, List, Bool, true, false, Option, none, some, ◌==◌,
  ltb, ◌&&◌, if◌then◌else◌, get_or, set, replicate,
}
use barry_os.Common.Words.{add64, sub64}
use barry_os.Mem.Bitmap.{bitmap_bytes, max_frames, set_bit, clear_bit, test_bit}
use barry_os.Mem.MemMap.{MemMap, Region, blank, is_usable}

abbrev pub page_shift : ℕ
page_shift = 12

abbrev pub page_size : ℕ
page_size = 4096

abbrev pub kernel_base : ℕ
kernel_base = 0x0010_0000

abbrev pub kernel_stack_top : ℕ
kernel_stack_top = 0x0100_0000

pub record FrameAllocator : Type 0 where
  pub bitmap : List ℕ
  pub frames_total : ℕ
  pub frames_used : ℕ
  pub frames_usable : ℕ
  pub next_hint : ℕ

unfoldable pub new : FrameAllocator
new = record {
  bitmap = replicate bitmap_bytes 0;
  frames_total = 0;
  frames_used = 0;
  frames_usable = 0;
  next_hint = 0;
}

-- `while i < BITMAP_BYTES { bitmap[i] = 0xFF; i += 1 }`, with `k` rounds left.
unfoldable pub fill : ℕ → ℕ → List ℕ → List ℕ
fill zero i bm = bm
fill (suc k) i bm = fill k (i + 1) (set bm i 0xFF)

-- One usable frame, if the bitmap reaches it.
unfoldable pub free_frame : FrameAllocator → ℕ → FrameAllocator
free_frame s f =
    if ltb f max_frames
    then record s { bitmap = clear_bit s.bitmap f; frames_usable = add64 s.frames_usable 1 }
    else s

-- `for j in 0..n`, from round `j` with `k` rounds left: the frames of one usable region.
unfoldable pub free_region : ℕ → ℕ → ℕ → FrameAllocator → FrameAllocator
free_region first zero j s = s
free_region first (suc k) j s = free_region first k (j + 1) (free_frame s (add64 first j))

unfoldable pub free_if_usable : FrameAllocator → Region → FrameAllocator
free_if_usable s r =
    if is_usable r.kind then free_region (r.start / 2 ^ page_shift) r.pages 0 s else s

-- `for i in 0..mm.count`, from region `i` with `k` rounds left.
unfoldable pub free_regions : MemMap → ℕ → ℕ → FrameAllocator → FrameAllocator
free_regions mm zero i s = s
free_regions mm (suc k) i s =
    free_regions mm k (i + 1) (free_if_usable s (get_or mm.regions i blank))

unfoldable pub reserve_frame : List ℕ → ℕ → List ℕ
reserve_frame bm f = if ltb f max_frames then set_bit bm f else bm

-- `for f in first..last`, from `f` with `k` rounds left.
unfoldable pub reserve : ℕ → ℕ → List ℕ → List ℕ
reserve zero f bm = bm
reserve (suc k) f bm = reserve k (f + 1) (reserve_frame bm f)

abbrev pub first_kernel_frame : ℕ
first_kernel_frame = kernel_base / page_size

abbrev pub last_kernel_frame : ℕ
last_kernel_frame = kernel_stack_top / page_size

abbrev pub kernel_frames : ℕ
kernel_frames = last_kernel_frame - first_kernel_frame

unfoldable pub init : FrameAllocator → MemMap → FrameAllocator
init s mm =
    let filled : FrameAllocator = record s {
      bitmap = fill bitmap_bytes 0 s.bitmap;
      frames_total = max_frames;
    } in
    let freed = free_regions mm mm.count 0 filled in
    record freed {
      bitmap = reserve kernel_frames first_kernel_frame freed.bitmap;
      frames_used = sub64 freed.frames_total freed.frames_usable;
    }

-- `for i in 0..MAX_FRAMES`, from round `i` with `k` rounds left: the first free frame from the hint
-- on, going round.
unfoldable pub find_free : List ℕ → ℕ → ℕ → ℕ → Option ℕ
find_free bm start zero i = none
find_free bm start (suc k) i =
    let rest = find_free bm start k (i + 1) in
    let idx = (start + i) % max_frames in if test_bit bm idx then rest else some idx

take_frame : FrameAllocator → Option ℕ → ℕ × FrameAllocator
take_frame s none = (0, s)
take_frame s (some idx) = (
  idx * 2 ^ page_shift,
  record s {
    bitmap = set_bit s.bitmap idx;
    frames_used = add64 s.frames_used 1;
    next_hint = (idx + 1) % max_frames;
  },
)

-- The address, 0 when no frame is free, and the new state.
unfoldable pub alloc : FrameAllocator → ℕ × FrameAllocator
unfolding take_frame
alloc s = take_frame s (find_free s.bitmap s.next_hint max_frames 0)

-- The scan of `alloc_contig`, from frame `i` with `k` rounds left.
unfoldable pub find_run : List ℕ → ℕ → ℕ → ℕ → ℕ → ℕ → Option ℕ
find_run bm n zero i run run_start = none
find_run bm n (suc k) i run run_start =
    let here = if run == 0 then i else run_start in
    let longer = find_run bm n k (i + 1) (run + 1) here in
    let broken = find_run bm n k (i + 1) 0 run_start in
    if test_bit bm i then broken else (if run + 1 == n then some here else longer)

-- `for j in 0..n { set_bit(run_start + j) }`, from frame `f` with `k` rounds left.
unfoldable pub set_bits : ℕ → ℕ → List ℕ → List ℕ
set_bits zero f bm = bm
set_bits (suc k) f bm = set_bits k (f + 1) (set_bit bm f)

take_run : FrameAllocator → ℕ → Option ℕ → ℕ × FrameAllocator
take_run s n none = (0, s)
take_run s n (some f) = (
  f * 2 ^ page_shift,
  record s {
    bitmap = set_bits n f s.bitmap;
    frames_used = add64 s.frames_used n;
    next_hint = (f + n) % max_frames;
  },
)

unfoldable pub alloc_contig : FrameAllocator → ℕ → ℕ × FrameAllocator
unfolding take_run
alloc_contig s n = if n == 0 then (0, s) else take_run s n (find_run s.bitmap n max_frames 0 0 0)

unfoldable pub free : FrameAllocator → ℕ → FrameAllocator
free s addr =
    let idx = addr / 2 ^ page_shift in
    if ltb idx max_frames && test_bit s.bitmap idx
    then record s {
      bitmap = clear_bit s.bitmap idx;
      frames_used = sub64 s.frames_used 1;
      next_hint = if ltb idx s.next_hint then idx else s.next_hint;
    }
    else s

-- The frames that a state holds as used.
abbrev pub used : FrameAllocator → ℕ → Bool
used s f = test_bit s.bitmap f
