-- ===== src/Proc/Process.antt =====
-- kernel/src/proc/process.rs: the table of process control blocks. The saved registers, which no
-- code of the table reads, are left out.
pub mod Slots
use barry_os.Common.{
  ℕ, replicate, Option, Bool, List, false, none, true, get_or, min, set, suc, ◌+◌, length, write_at,
  if◌then◌else◌, take, some, zero, ◌∷◌, [],
}
use barry_os.Common.Words.{add64}

abbrev pub max_processes : ℕ
max_processes = 16

pub data ProcessState : Type 0 where
  free ready running blocked exited : ProcessState

pub record ProcessControlBlock : Type 0 where
  pub pid : ℕ
  pub state : ProcessState
  pub name : List ℕ
  pub name_len : ℕ
  pub rsp : ℕ
  pub stack_top : ℕ
  pub ticks : ℕ
  pub switches : ℕ

abbrev pub empty : ProcessControlBlock
empty = record {
  pid = 0;
  state = free;
  name = replicate 16 0;
  name_len = 0;
  rsp = 0;
  stack_top = 0;
  ticks = 0;
  switches = 0;
}

unfoldable pub set_name : ProcessControlBlock → List ℕ → ProcessControlBlock
set_name p b =
    let n = min (length b) 15 in
    record p { name = set (write_at p.name 0 (take n b)) n 0; name_len = n }

-- The process table with the next pid, and the scheduler's statics.
pub record Proc : Type 0 where
  pub table : List ProcessControlBlock
  pub next_pid : ℕ
  pub enabled : Bool
  pub current_slot : ℕ
  pub context_switches : ℕ

abbrev pub boot : Proc
boot = record {
  table = replicate max_processes empty;
  next_pid = 1;
  enabled = false;
  current_slot = 0;
  context_switches = 0;
}

unfoldable pub pcb : Proc → ℕ → ProcessControlBlock
pcb s i = get_or s.table i empty

abbrev pub is_free : ProcessState → Bool
is_free free = true
is_free _ = false

abbrev pub is_ready : ProcessState → Bool
is_ready ready = true
is_ready _ = false

abbrev pub is_running : ProcessState → Bool
is_running running = true
is_running _ = false

-- `for i in 0..MAX_PROCESSES`, from `i` with `k` to look at.
unfoldable pub first_free : Proc → ℕ → ℕ → Option ℕ
first_free s zero i = none
first_free s (suc k) i =
    let rest = first_free s k (i + 1) in if is_free (pcb s i).state then some i else rest

unfoldable pub alloc_slot : Proc → Option ℕ
alloc_slot s = first_free s max_processes 0

unfoldable pub alloc_pid : Proc → ℕ × Proc
alloc_pid s = (s.next_pid, record s { next_pid = add64 s.next_pid 1 })

-- One block of the table written.
unfoldable pub write_pcb : Proc → ℕ → ProcessControlBlock → Proc
write_pcb s i p = record s { table = set s.table i p }

-- `idle`
abbrev pub idle_name : List ℕ
idle_name = b'i' ∷ b'd' ∷ b'l' ∷ b'e' ∷ []

unfoldable pub create_idle : Proc → Proc
create_idle s =
    write_pcb s 0 (record (set_name (record (pcb s 0) { pid = 0; state = ready }) idle_name) {
      ticks = 0;
      switches = 0;
    })

unfoldable pub count_from : Proc → ℕ → ℕ → ℕ → ℕ
count_from s zero i n = n
count_from s (suc k) i n = count_from s k (i + 1) (if is_free (pcb s i).state then n else n + 1)

-- The number of blocks in use.
unfoldable pub count : Proc → ℕ
count s = count_from s max_processes 0 0
