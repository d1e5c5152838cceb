-- ===== src/Mem/FrameAlloc/Invariant.antt =====
-- The representation invariant of the frame allocator.
use barry_os.Common.{ℕ, ◌<◌}
use barry_os.Common.Loops.{count_below}
use barry_os.Mem.Bitmap.{IsBitmap, max_frames}
use barry_os.Mem.FrameAlloc.{FrameAllocator, used}

pub record IsValid (s : FrameAllocator) : Type 0 where
  pub bits : IsBitmap s.bitmap
  pub hint_in : s.next_hint < max_frames

-- How many frames the bitmap holds as used.
abbrev pub used_frames : FrameAllocator → ℕ
used_frames s = count_below max_frames (used s)
