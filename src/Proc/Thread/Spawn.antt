-- ===== src/Proc/Thread/Spawn.antt =====
-- What a new thread gets: a slot that was free, a stack of frames that were free, and on it the words
-- that the first switch to it restores.
use barry_os.Mem.FrameAlloc.{used}
use barry_os.Mem.Bitmap.{max_frames}
use barry_os.Mem.FrameAlloc.Contig.{IsFreeRun, in_run}
use barry_os.Common.Words.{add64}
use barry_os.Proc.Process.{is_free, pcb, write_pcb, max_processes}
use barry_os.Proc.Thread.{Threads, FrameAllocator, thread_block, first_frame}
use barry_os.Common.{
  ℕ, List, ◌<◌, ◌≡◌, ◌*◌, ◌⊎◌, ◌≤◌, ◌+◌, ◌-◌, true, get_or, some, if◌then◌else◌, false,
}

-- The thread that was started: in `slot`, on the stack of the four frames from `a` on.
pub record IsStarted (trampoline : ℕ) (s : Threads) (fa : FrameAllocator) (name : List ℕ)
    (slot a : ℕ) (t : Threads) : Type 0 where
  pub was_free : is_free (pcb s.proc slot).state ≡ true
  pub were_free : IsFreeRun fa.bitmap a 4
  pub in_memory : a + 4 ≤ max_frames
  pub table :
      t.proc
      ≡ write_pcb
          (record s.proc { next_pid = add64 s.proc.next_pid 1 })
          slot
          (thread_block (pcb s.proc slot) s.proc.next_pid name ((a + 4) * 4096))
  pub now_used :
      (fa' : FrameAllocator) × (t.frames ≡ some fa')
      × ((f : ℕ) → used fa' f ≡ (if in_run a 4 f then true else used fa f))
  pub words :
      (i : ℕ)
      → i < 8
      → t.memory ((a + 4) * 4096 - 8 * (i + 1)) ≡ get_or (first_frame trampoline) i 0
  pub elsewhere : (x : ℕ) → (x < a * 4096) ⊎ ((a + 4) * 4096 ≤ x) → t.memory x ≡ s.memory x

-- Why no thread can be started.
abbrev pub NoRoom : Threads → FrameAllocator → Type 0
NoRoom s fa =
    ((j : ℕ) → j < max_processes → is_free (pcb s.proc j).state ≡ false)
    ⊎ (IsFreeRun fa.bitmap 0 4 ⊎ ((a : ℕ) → a + 4 ≤ max_frames → IsFreeRun fa.bitmap a 4 → ⊥))

pub data Spawned (trampoline : ℕ) (s : Threads) (fa : FrameAllocator) (name : List ℕ)
    : ℕ × Threads → Type 0 where
  refused :
      (t : Threads)
      → NoRoom s fa
      → t.proc ≡ s.proc
      → t.memory ≡ s.memory
      → Spawned trampoline s fa name (0, t)
  started :
      (slot a : ℕ) (t : Threads)
      → IsStarted trampoline s fa name slot a t
      → Spawned trampoline s fa name (s.proc.next_pid, t)

-- A stack that was taken is a run of frames above frame 0; the memory is cleared there alone.
abbrev Stack : FrameAllocator → (ℕ → ℕ) → ℕ × FrameAllocator × (ℕ → ℕ) → Type 0
Stack fa m (base, fa', m') =
    ((base ≡ 0)
      × (m' ≡ m)
      × (IsFreeRun fa.bitmap 0 4 ⊎ ((a : ℕ) → a + 4 ≤ max_frames → IsFreeRun fa.bitmap a 4 → ⊥)))
    ⊎ ((a : ℕ) × (0 < a)
        × (base ≡ a * 4096)
        × (a + 4 ≤ max_frames)
        × IsFreeRun fa.bitmap a 4
        × ((f : ℕ) → used fa' f ≡ (if in_run a 4 f then true else used fa f))
        × ((x : ℕ) → (x < a * 4096) ⊎ ((a + 4) * 4096 ≤ x) → m' x ≡ m x))
