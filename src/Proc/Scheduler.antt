-- ===== src/Proc/Scheduler.antt =====
-- kernel/src/proc/scheduler.rs: the round-robin choice of the next process.
pub mod RoundRobin
pub mod Fairness
use barry_os.Common.{ℕ, if◌then◌else◌, true, not, suc, ◌==◌, ◌+◌, ◌%◌, zero}
use barry_os.Common.Words.{add64}
use barry_os.Proc.Process.{
  Proc, pcb, write_pcb, max_processes, is_ready, is_running, ready, running,
}

unfoldable pub enable : Proc → Proc
enable s = record s { enabled = true }

unfoldable pub current_pid : Proc → ℕ
current_pid s = (pcb s s.current_slot).pid

-- The loop of `find_next`, from distance `i` with `k` slots left.
unfoldable pub find_from : Proc → ℕ → ℕ → ℕ → ℕ
find_from s from_slot zero i = 0
find_from s from_slot (suc k) i =
    let idx = (from_slot + i) % max_processes in
    let rest = find_from s from_slot k (i + 1) in if is_ready (pcb s idx).state then idx else rest

unfoldable pub find_next : Proc → ℕ → ℕ
find_next s from_slot = find_from s from_slot max_processes 1

-- The block of the process that is left, and of the one that is chosen.
unfoldable pub leave : Proc → ℕ → Proc
leave s cur =
    let p = pcb s cur in
    write_pcb s cur
      (record p { state = if is_running p.state then ready else p.state; ticks = add64 p.ticks 1 })

unfoldable pub enter : Proc → ℕ → Proc
enter s next =
    let p = pcb s next in
    write_pcb s next (record p { state = running; switches = add64 p.switches 1 })

-- The accounting of a switch from one slot to another.
unfoldable pub switch : Proc → ℕ → ℕ → Proc
switch s cur next = record (enter (leave s cur) next) {
  current_slot = next;
  context_switches = add64 s.context_switches 1;
}

unfoldable pub tick : Proc → Proc
tick s =
    let cur = s.current_slot in
    let next = find_next s cur in
    if not s.enabled then s else if next == cur then s else switch s cur next

unfoldable pub yield_cpu : Proc → Proc
yield_cpu s = tick s
