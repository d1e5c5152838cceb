-- ===== src/Proc/Syscall.antt =====
-- kernel/src/proc/syscall.rs: the dispatch of system calls. Of the registers, those that it reads or
-- writes are kept. The serial line is the list of the bytes written to it; the log is left out.
pub mod Alive
use barry_os.Common.Words.{add64, u64_mod}
use barry_os.Proc.Process.{Proc}
use barry_os.Proc.Scheduler.{yield_cpu, current_pid}
use barry_os.Common.{ℕ, suc, List, if◌then◌else◌, ◌==◌, ◌++◌, ◌∷◌, [], ◌-◌, zero}

abbrev pub sys_write : ℕ
sys_write = 0

abbrev pub sys_exit : ℕ
sys_exit = 1

abbrev pub sys_getpid : ℕ
sys_getpid = 2

abbrev pub sys_yield : ℕ
sys_yield = 3

abbrev pub sys_getticks : ℕ
sys_getticks = 4

pub record SyscallRegs : Type 0 where
  pub rax : ℕ
  pub rdx : ℕ
  pub rsi : ℕ
  pub rdi : ℕ

-- What a system call can change, and the bytes of memory and the timer's ticks that it reads.
pub record System : Type 0 where
  pub proc : Proc
  pub memory : ℕ → ℕ
  pub timer_ticks : ℕ
  pub syscall_count : ℕ
  pub serial : List ℕ

-- The loop that writes `len` bytes from `buf`.
unfoldable pub write_bytes : ℕ → ℕ → System → System
write_bytes zero buf s = s
write_bytes (suc len) buf s =
    write_bytes len (add64 buf 1) (record s { serial = s.serial ++ s.memory buf ∷ [] })

unfoldable pub dispatch : SyscallRegs → System → SyscallRegs × System
dispatch regs s =
    let yielded = record s { proc = yield_cpu s.proc } in
    if regs.rax == sys_write
    then (record regs { rax = regs.rdx }, write_bytes regs.rdx regs.rsi s)
    else if regs.rax == sys_exit
    then (record regs { rax = 0 }, yielded)
    else if regs.rax == sys_getpid
    then (record regs { rax = current_pid s.proc }, s)
    else if regs.rax == sys_yield
    then (record regs { rax = 0 }, yielded)
    else if regs.rax == sys_getticks
    then (record regs { rax = s.timer_ticks }, s)
    else (record regs { rax = u64_mod - 1 }, s)

unfoldable pub syscall_handler : SyscallRegs → System → SyscallRegs × System
unfolding dispatch
syscall_handler regs s = dispatch regs (record s { syscall_count = add64 s.syscall_count 1 })
