-- ===== src/Proc/Tests.antt =====
-- The scheduler's theorems at a concrete table.
use barry_os.Proc.Syscall.Alive.{syscall_handler-IsKept, IsKept}
use barry_os.Proc.Syscall.{System, SyscallRegs, syscall_handler}
use barry_os.Proc.Thread.{Threads}
use barry_os.Common.{
  All-set, All, refl, arith, clash, ◌≡◌, false, All-get_or, All-replicate, ℕ, ◌≤◌, some, [],
}
use barry_os.Proc.Process.{
  ProcessControlBlock, Proc, boot, create_idle, pcb, is_running, write_pcb, ready, set_name, exited,
}
use barry_os.Proc.Process
use barry_os.Mem.FrameAlloc
use barry_os.Mem.FrameAlloc.{alloc_contig, FrameAllocator}
use barry_os.Proc.Scheduler.Fairness.{IsReadyAt, ticks, ticks-current_slot}
use barry_os.Proc.Scheduler.{enable, find_next, tick}
use barry_os.Proc.Scheduler.RoundRobin.{Chooses, find_next_lem, IsSingle, tick-IsSingle}

-- The idle process and one more, the scheduler on.
abbrev two : Proc
two = enable (write_pcb (create_idle boot) 1 (record (pcb boot 1) { pid = 1; state = ready }))

find_next_lem_example : Chooses two 0 (find_next two 0)
find_next_lem_example = find_next_lem two 0

-- No process of it is running yet.
abbrev Waits : ProcessControlBlock → Type 0
Waits p = is_running p.state ≡ false

two-Waits : All Waits two.table
unfolding enable write_pcb create_idle set_name pcb
two-Waits = All-set Waits (create_idle boot).table 1 (pcb two 1) refl (
    All-set Waits boot.table 0 (pcb (create_idle boot) 0) refl
      (All-replicate Waits 16 Process.empty refl))

two-IsSingle : IsSingle two
unfolding enable write_pcb create_idle set_name pcb
two-IsSingle = record {
  sized = refl;
  current = omega arith;
  alone = λ i r. absurd (clash r (All-get_or Waits two.table i Process.empty refl two-Waits));
}

tick-IsSingle_example : IsSingle (tick two)
tick-IsSingle_example = tick-IsSingle two two-IsSingle

two-IsReadyAt : IsReadyAt two 1 1
unfolding enable write_pcb create_idle set_name pcb
two-IsReadyAt = record {
  sized = refl;
  current = omega arith;
  on = refl;
  slot = refl;
  far = omega arith;
  near = omega arith;
  waits = refl;
}

ticks-current_slot_example : (k : ℕ) × (k ≤ 15) × ((ticks k two).current_slot ≡ 1)
ticks-current_slot_example = ticks-current_slot 15 two 1 1 two-IsReadyAt (omega arith)

abbrev frames : FrameAllocator
frames = (alloc_contig FrameAlloc.new 1).1

abbrev bare : Threads
bare = record { proc = two; frames = some frames; memory = λ a. 0 }

-- The running process calls exit.
abbrev busy : System
busy = record { proc = two; memory = λ a. 0; timer_ticks = 7; syscall_count = 0; serial = [] }

abbrev exit_call : SyscallRegs
exit_call = record { rax = 1; rdx = 0; rsi = 0; rdi = 0 }

syscall_handler-IsKept_example :
    IsKept busy.proc.current_slot
      (pcb busy.proc busy.proc.current_slot)
      (pcb (syscall_handler exit_call busy).1.proc busy.proc.current_slot)
syscall_handler-IsKept_example = syscall_handler-IsKept exit_call busy busy.proc.current_slot
