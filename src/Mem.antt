-- ===== src/Mem.antt =====
-- The memory subsystem: kernel/src/mem (efi.rs, memmap.rs, frame_alloc.rs, heap.rs).
pub mod MemMap
pub mod Bitmap
pub mod FrameAlloc
pub mod Heap
mod Tests
