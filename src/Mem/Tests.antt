-- ===== src/Mem/Tests.antt =====
-- The memory theorems at concrete states.
use barry_os.Common.{
  ◌||◌, not, ◌<◌, ◌≡◌, ℕ, length-replicate, All, arith, List, ◌∷◌, false, All-replicate, [], refl,
}
use barry_os.Mem.Bitmap.{IsBitmap, bitmap_bytes, test_bit}
use barry_os.Mem.MemMap
use barry_os.Mem.MemMap.{
  MemMap, BootInfo, EfiMemoryDescriptor, Region, blank, region_of, desc_at, bios_fallback_into,
  parse_into, max_regions, bootinfo_magic,
}
use barry_os.Mem.FrameAlloc
use barry_os.Mem.FrameAlloc.{FrameAllocator, used}
use barry_os.Mem.FrameAlloc.Invariant.{IsValid, used_frames}
use barry_os.Mem.FrameAlloc.Alloc.{Allocates, alloc_lem}
use barry_os.Mem.FrameAlloc.Contig.{AllocatesRun, alloc_contig_lem}
use barry_os.Mem.FrameAlloc.Count.{Tracks, Call, allocs, allocs_contig, frees, run, run-Tracks}
use barry_os.Mem.FrameAlloc.Init.{in_kernel, used-init, init-IsValid}
use barry_os.Mem.FrameAlloc.Regions.{EndsInRange, usable_from}
use barry_os.Mem.Heap
use barry_os.Mem.Heap.{BumpAlloc, Layout, mark, reset_to, heap_used, heap_free}
use barry_os.Mem.Heap.Blocks
use barry_os.Mem.Heap.Blocks.{
  IsLayout, heap_alloc_lem, alloc_all, Apart, AreLayouts, alloc_all-Apart,
}
use barry_os.Mem.Heap.Frames.{Starts, init_lem}

-- An allocator with every frame free.
abbrev clear : FrameAllocator
clear = FrameAlloc.new

clear-IsBitmap : IsBitmap clear.bitmap
unfolding FrameAlloc.new
clear-IsBitmap = record {
  sized = length-replicate {A = ℕ} bitmap_bytes 0;
  bytes = All-replicate (λ b. b < 256) bitmap_bytes 0 (omega arith);
}

clear-IsValid : IsValid clear
unfolding FrameAlloc.new
clear-IsValid = record { bits = clear-IsBitmap; hint_in = omega arith }

-- The memory of a machine that boots without a memory map.
abbrev bios : MemMap
bios = bios_fallback_into MemMap.new

bios_ends : All EndsInRange bios.regions
unfolding bios_fallback_into MemMap.new MemMap.push
bios_ends = (omega arith, (omega arith, All-replicate EndsInRange 30 blank (omega arith)))

abbrev booted : FrameAllocator
booted = FrameAlloc.init clear bios

booted-IsValid : IsValid booted
unfolding FrameAlloc.new
booted-IsValid = init-IsValid clear bios clear-IsBitmap (omega arith)

-- Frame 0x300, in the second region, is free: the kernel's span comes before it.
used-init_example :
    used booted 0x1100 ≡ (in_kernel 0x1100 || not (usable_from bios bios.count 0 0x1100))
used-init_example = used-init clear bios clear-IsBitmap bios_ends 0x1100 (omega arith)

alloc_lem_example : Allocates booted (FrameAlloc.alloc booted) × IsValid (FrameAlloc.alloc booted).1
alloc_lem_example = alloc_lem booted booted-IsValid

alloc_contig_lem_example :
    AllocatesRun booted 2048 (FrameAlloc.alloc_contig booted 2048)
    × IsValid (FrameAlloc.alloc_contig booted 2048).1
alloc_contig_lem_example = alloc_contig_lem booted 2048 booted-IsValid

clear-used : used clear 7 ≡ false
unfolding FrameAlloc.new test_bit
clear-used = refl

abbrev history : List Call
history = allocs ∷ allocs_contig 3 ∷ frees 0 ∷ allocs ∷ []

clear-Tracks : Tracks (used_frames clear) clear
unfolding FrameAlloc.new
clear-Tracks = omega arith

run-Tracks_example : IsValid (run clear history) × Tracks (used_frames clear) (run clear history)
run-Tracks_example = run-Tracks (used_frames clear) clear history clear-IsValid clear-Tracks

-- A heap of 64 KiB with 3 bytes taken.
abbrev heap : BumpAlloc
heap = record {
  heap_start = 0x20_0000;
  heap_end = 0x21_0000;
  next = 0x20_0003;
  allocs = 1;
  frees = 0;
  bytes_in_use = 3;
}

heap-IsValid : Blocks.IsValid heap
heap-IsValid = record { low = omega arith; high = omega arith; small = omega arith }

abbrev word : Layout
word = record { size = 24; align = 8 }

word-IsLayout : IsLayout word 3
word-IsLayout = record { power = refl; word = omega arith; fits = omega arith }

abbrev words : List Layout
words = word ∷ word ∷ []

words-AreLayouts : AreLayouts words
words-AreLayouts = ((3, word-IsLayout), ((3, word-IsLayout), tt))

alloc_all-Apart_example :
    Apart heap.next (alloc_all heap words).0 (alloc_all heap words).1.next
    × Blocks.IsValid (alloc_all heap words).1
    × ((alloc_all heap words).1.heap_start ≡ heap.heap_start)
    × ((alloc_all heap words).1.heap_end ≡ heap.heap_end)
alloc_all-Apart_example = alloc_all-Apart heap words heap-IsValid words-AreLayouts

init_lem_example : Starts booted (Heap.init Heap.empty booted)
init_lem_example = init_lem booted booted-IsValid
