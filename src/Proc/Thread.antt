-- ===== src/Proc/Thread.antt =====
-- kernel/src/proc/thread.rs: the start of a kernel thread. Memory is the function from an address to
-- the word of 64 bits there; a stack is aligned, so its words do not overlap. The address of the
-- trampoline, which the linker assigns, is an argument. The code that runs on the new stack is left
-- out, as is a thread's exit, which never returns.
pub mod Words
pub mod Spawn
use barry_os.Common.Words.{add64, sub64}
use barry_os.Mem.FrameAlloc.{FrameAllocator, alloc_contig}
use barry_os.Proc.Process.{
  Proc, set_name, ProcessControlBlock, alloc_slot, alloc_pid, ready, write_pcb, pcb,
}
use barry_os.Common.{
  none, ℕ, List, Option, if◌then◌else◌, ◌∷◌, some, ◌*◌, suc, ◌==◌, ◌+◌, replicate, [], zero,
}

-- The process table, the frame allocator once it was passed on, and the memory.
pub record Threads : Type 0 where
  pub proc : Proc
  pub frames : Option FrameAllocator
  pub memory : ℕ → ℕ

abbrev pub stack_pages : ℕ
stack_pages = 4

abbrev pub stack_bytes : ℕ
stack_bytes = stack_pages * 4096

unfoldable pub set_frame_allocator : Threads → FrameAllocator → Threads
set_frame_allocator s fa = record s { frames = some fa }

unfoldable pub store : (ℕ → ℕ) → ℕ → ℕ → ℕ → ℕ
store m a v x = if x == a then v else m x

-- The loop that clears a stack, from address `a` with `n` words left.
unfoldable pub clear_words : ℕ → ℕ → (ℕ → ℕ) → ℕ → ℕ
unfolding store
clear_words zero a m = m
clear_words (suc n) a m = clear_words n (a + 8) (store m a 0)

-- The address of the stack, or 0, with the allocator and the cleared memory.
unfoldable pub alloc_stack : FrameAllocator → (ℕ → ℕ) → ℕ → ℕ × FrameAllocator × (ℕ → ℕ)
alloc_stack fa m pages =
    let (phys, fa') = alloc_contig fa pages in
    if phys == 0 then (0, fa', m) else (phys, fa', clear_words (pages * 512) phys m)

-- The loop of pushes below `sp`: the words go down from it, the first one highest.
unfoldable pub push_words : List ℕ → ℕ → (ℕ → ℕ) → ℕ → ℕ
unfolding store
push_words [] sp m = m
push_words (v ∷ vs) sp m = push_words vs (sub64 sp 8) (store m (sub64 sp 8) v)

-- The flags, the trampoline, and the six registers that a switch restores.
unfoldable pub first_frame : ℕ → List ℕ
first_frame trampoline = 0x202 ∷ trampoline ∷ replicate 6 0

-- The control block of the new thread.
unfoldable pub thread_block : ProcessControlBlock → ℕ → List ℕ → ℕ → ProcessControlBlock
unfolding set_name
thread_block p pid name stack_top = record (set_name (record p { pid = pid; state = ready }) name) {
  stack_top = stack_top;
  ticks = 0;
  switches = 0;
  rsp = sub64 stack_top 64;
}

-- What `spawn` does once it has a slot and a stack.
unfoldable pub start_thread : ℕ → Threads → ℕ → List ℕ → ℕ × FrameAllocator × (ℕ → ℕ) → ℕ × Threads
start_thread trampoline s slot name (stack_base, fa, m) =
    let stack_top = add64 stack_base stack_bytes in
    let (pid, proc) = alloc_pid s.proc in
    if stack_base == 0 then (0, record s { frames = some fa; memory = m }) else (
      pid,
      record s {
        proc = write_pcb proc slot (thread_block (pcb proc slot) pid name stack_top);
        frames = some fa;
        memory = push_words (first_frame trampoline) stack_top m;
      },
    )

-- The entry function is passed and not used, as in the source.
unfoldable pub spawn : ℕ → Threads → ℕ → List ℕ → ℕ × Threads
spawn trampoline s entry name = elim (alloc_slot s.proc) [
  | none ↦ (0, s)
  | some slot ↦ elim s.frames [
    | none ↦ (0, s)
    | some fa ↦ start_thread trampoline s slot name (alloc_stack fa s.memory stack_pages)
  ]
]
