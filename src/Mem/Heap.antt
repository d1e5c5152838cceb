-- ===== src/Mem/Heap.antt =====
-- kernel/src/mem/heap.rs: the kernel heap, a bump allocator over a run of frames. The zeroing of the
-- heap's memory and the log are left out.
pub mod Blocks
pub mod Frames
use barry_os.Common.{ℕ, ◌-◌, if◌then◌else◌, bit_and, ◌*◌, ◌==◌, ltb, ◌||◌}
use barry_os.Common.Words.{add64, sub64, u64_mod}
use barry_os.Mem.FrameAlloc
use barry_os.Mem.FrameAlloc.{FrameAllocator}

abbrev pub heap_pages : ℕ
heap_pages = 2048

abbrev pub heap_size : ℕ
heap_size = heap_pages * 4096

pub record BumpAlloc : Type 0 where
  pub heap_start : ℕ
  pub heap_end : ℕ
  pub next : ℕ
  pub allocs : ℕ
  pub frees : ℕ
  pub bytes_in_use : ℕ

-- What the caller asks for; the alignment is a power of two.
pub record Layout : Type 0 where
  pub size : ℕ
  pub align : ℕ

unfoldable pub empty : BumpAlloc
empty = record { heap_start = 0; heap_end = 0; next = 0; allocs = 0; frees = 0; bytes_in_use = 0 }

start_at : BumpAlloc → ℕ → BumpAlloc
start_at h phys =
    if phys == 0
    then h
    else record h { heap_start = phys; heap_end = add64 phys heap_size; next = phys }

-- `init`: the heap takes its frames from the frame allocator.
unfoldable pub init : BumpAlloc → FrameAllocator → BumpAlloc × FrameAllocator
unfolding start_at
init h fa = let (phys, fa') = FrameAlloc.alloc_contig fa heap_pages in (start_at h phys, fa')

-- `(start + align - 1) & !(align - 1)`
unfoldable pub align_up : ℕ → ℕ → ℕ
align_up start align = bit_and (sub64 (add64 start align) 1) (u64_mod - align)

-- The address, 0 for a null pointer, and the new state.
unfoldable pub alloc : BumpAlloc → Layout → ℕ × BumpAlloc
alloc h l =
    let aligned = align_up h.next l.align in
    let new_next = add64 aligned l.size in
    if ltb h.heap_end new_next then (0, h) else (
      aligned,
      record h {
        next = new_next;
        allocs = add64 h.allocs 1;
        bytes_in_use = add64 h.bytes_in_use l.size;
      },
    )

unfoldable pub dealloc : BumpAlloc → ℕ → Layout → BumpAlloc
dealloc h ptr l = h

unfoldable pub mark : BumpAlloc → ℕ
mark h = h.next

unfoldable pub reset_to : BumpAlloc → ℕ → BumpAlloc
reset_to h m = if ltb m h.heap_start || ltb h.heap_end m then h else record h { next = m }

-- Subtraction that stops at 0.
unfoldable pub heap_used : BumpAlloc → ℕ
heap_used h = h.next - h.heap_start

unfoldable pub heap_free : BumpAlloc → ℕ
heap_free h = h.heap_end - h.next
