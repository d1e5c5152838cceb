-- ===== src/Proc/Syscall/Alive.antt =====
-- What system calls do to processes, and what they write.
use barry_os.Proc.Syscall.{
  syscall_handler, write_bytes, SyscallRegs, System, add64, dispatch, sys_write, sys_exit,
  sys_getpid, sys_yield, sys_getticks,
}
use barry_os.Common.{
  ◌≡◌, if◌then◌else◌, ℕ, ℕ_discrete, sym, ap, refl, get_or-set_ne, ◌∙◌, dec_lt, length, subst,
  get_or, get_or-set_self, set, get_or_past, arith, length-set, if-cases, not, ◌==◌, ◌++◌, suc, ◌∷◌,
  [], zero, ◌⊎◌, inl, Bool, true, inr, false, ◌+◌, ◌%◌,
}
use barry_os.Proc.Scheduler.{tick, leave, enter, find_next, switch, yield_cpu, find_from}
use barry_os.Proc.Process.{
  pcb, ProcessState, write_pcb, Proc, exited, is_running, ready, ProcessControlBlock, free, running,
  blocked, empty, max_processes, is_ready,
}

-- A process that is ready or runs.
abbrev pub is_runnable : ProcessState → Bool
is_runnable ready = true
is_runnable running = true
is_runnable _ = false

-- What a switch may do to slot `i`: count, and move between ready and running; and slot 0, the idle
-- process, may be made to run whatever it was.
pub record IsKept (i : ℕ) (p q : ProcessControlBlock) : Type 0 where
  pub identity : q ≡ record p { state = q.state; ticks = q.ticks; switches = q.switches }
  pub state :
      (q.state ≡ p.state)
      ⊎ ((is_runnable q.state ≡ true) × ((is_runnable p.state ≡ true) ⊎ (i ≡ 0)))

IsKept-refl : (i : ℕ) (p : ProcessControlBlock) → IsKept i p p
IsKept-refl i p = record { identity = refl; state = inl refl }

IsKept-trans : (i : ℕ) (p q r : ProcessControlBlock) → IsKept i p q → IsKept i q r → IsKept i p r
IsKept-trans i p q r a b = record {
  identity =
      b.identity
      ∙ ap
          (λ (o : ProcessControlBlock). record o {
            state = r.state;
            ticks = r.ticks;
            switches = r.switches;
          })
          a.identity;
  state = join a.state b.state;
}
  where
    join :
        (q.state ≡ p.state)
          ⊎ ((is_runnable q.state ≡ true) × ((is_runnable p.state ≡ true) ⊎ (i ≡ 0)))
        → (r.state ≡ q.state)
          ⊎ ((is_runnable r.state ≡ true) × ((is_runnable q.state ≡ true) ⊎ (i ≡ 0)))
        → (r.state ≡ p.state)
          ⊎ ((is_runnable r.state ≡ true) × ((is_runnable p.state ≡ true) ⊎ (i ≡ 0)))
    join (inl e) (inl e') = inl (e' ∙ e)
    join (inl e) (inr (up, inl was)) = inr (up, inl (ap is_runnable (sym e) ∙ was))
    join (inl e) (inr (up, inr idle)) = inr (up, inr idle)
    join (inr (up, why)) (inl e) = inr (ap is_runnable e ∙ up, why)
    join (inr (up, why)) (inr (up', why')) = inr (up', why)

-- One block written that is kept keeps every slot.
write_pcb-IsKept :
    (s : Proc) (i j : ℕ) (p : ProcessControlBlock)
    → IsKept i (pcb s i) p
    → IsKept j (pcb s j) (pcb (write_pcb s i p) j)
unfolding pcb write_pcb
write_pcb-IsKept s i j p kept = elim (ℕ_discrete i j) [
  | no ne ↦
      subst (IsKept j (pcb s j)) (sym (get_or-set_ne s.table i j p empty ne))
        (IsKept-refl j (pcb s j))
  | yes e ↦ elim (dec_lt i (length s.table)) [
    | yes lt ↦
        subst (λ k. IsKept k (get_or s.table k empty) (get_or (set s.table i p) k empty)) e
          (subst (IsKept i (get_or s.table i empty)) (sym (get_or-set_self s.table i p empty lt))
            kept)
    | no past ↦
        subst (IsKept j (pcb s j))
          (get_or_past s.table j empty (omega (arith, past, e))
            ∙ sym (
                get_or_past (set s.table i p) j empty
                  (omega (arith, past, e, length-set s.table i p))))
          (IsKept-refl j (pcb s j))
  ]
]

left_state :
    (i : ℕ) (t : ProcessState)
    → let u = if is_running t then ready else t in
      (u ≡ t) ⊎ ((is_runnable u ≡ true) × ((is_runnable t ≡ true) ⊎ (i ≡ 0)))
left_state i free = inl refl
left_state i ready = inl refl
left_state i running = inr (refl, inl refl)
left_state i blocked = inl refl
left_state i exited = inl refl

leave-IsKept : (s : Proc) (cur i : ℕ) → IsKept i (pcb s i) (pcb (leave s cur) i)
unfolding leave
leave-IsKept s cur i =
    write_pcb-IsKept s cur i _
      (record { identity = refl; state = left_state cur (pcb s cur).state })

enter-IsKept :
    (s : Proc) (next i : ℕ)
    → (is_runnable (pcb s next).state ≡ true) ⊎ (next ≡ 0)
    → IsKept i (pcb s i) (pcb (enter s next) i)
unfolding enter
enter-IsKept s next i why =
    write_pcb-IsKept s next i _ (record { identity = refl; state = inr (refl, why) })

-- The slot that is switched to was ready, or is slot 0.
find_from-is_runnable :
    (s : Proc) (from_slot k i : ℕ)
    → let next = find_from s from_slot k i in (is_runnable (pcb s next).state ≡ true) ⊎ (next ≡ 0)
unfolding find_from
find_from-is_runnable s from_slot zero i = inr refl
find_from-is_runnable s from_slot (suc k) i =
    let idx = (from_slot + i) % max_processes in
    if-cases (λ n. (is_runnable (pcb s n).state ≡ true) ⊎ (n ≡ 0)) (is_ready (pcb s idx).state) _ _
      (λ h. inl (ready_runs (pcb s idx).state h)) (λ h. find_from-is_runnable s from_slot k (i + 1))
  where
    ready_runs : (t : ProcessState) → is_ready t ≡ true → is_runnable t ≡ true
    ready_runs ready h = refl
    ready_runs running h = refl
    ready_runs free h = h
    ready_runs blocked h = h
    ready_runs exited h = h

switch-IsKept :
    (s : Proc) (cur next i : ℕ)
    → (is_runnable (pcb s next).state ≡ true) ⊎ (next ≡ 0)
    → IsKept i (pcb s i) (pcb (switch s cur next) i)
unfolding switch
switch-IsKept s cur next i why =
    IsKept-trans i (pcb s i) (pcb (leave s cur) i) (pcb (switch s cur next) i)
      (leave-IsKept s cur i)
      (table_alone (enter (leave s cur) next) (enter-IsKept (leave s cur) next i (still why)))
  where
    table_alone :
        (t : Proc)
        → IsKept i (pcb (leave s cur) i) (pcb t i)
        → IsKept i (pcb (leave s cur) i) (
            pcb (record t { current_slot = next; context_switches = add64 s.context_switches 1 }) i)
    table_alone t h = unfold pcb in h

    runs :
        (IsKept next (pcb s next) (pcb (leave s cur) next))
        → is_runnable (pcb s next).state ≡ true
        → is_runnable (pcb (leave s cur) next).state ≡ true
    runs k h = elim k.state [ inl e ↦ ap is_runnable e ∙ h | inr (up, _) ↦ up ]

    still :
        (is_runnable (pcb s next).state ≡ true) ⊎ (next ≡ 0)
        → (is_runnable (pcb (leave s cur) next).state ≡ true) ⊎ (next ≡ 0)
    still (inl h) = inl (runs (leave-IsKept s cur next) h)
    still (inr z) = inr z

tick-IsKept : (s : Proc) (i : ℕ) → IsKept i (pcb s i) (pcb (tick s) i)
unfolding tick find_next
tick-IsKept s i =
    let P : Proc → Type 0 = λ t. IsKept i (pcb s i) (pcb t i) in
    if-cases P (not s.enabled) _ _ (λ off. IsKept-refl i (pcb s i))
      λ on.
        if-cases P (find_next s s.current_slot == s.current_slot) _ _
          (λ same. IsKept-refl i (pcb s i))
          (λ other.
            switch-IsKept s s.current_slot (find_next s s.current_slot) i
              (find_from-is_runnable s s.current_slot max_processes 1))

write_bytes-proc : (len buf : ℕ) (s : System) → (write_bytes len buf s).proc ≡ s.proc
unfolding write_bytes
write_bytes-proc zero buf s = refl
write_bytes-proc (suc len) buf s =
    write_bytes-proc len (add64 buf 1) (record s { serial = s.serial ++ s.memory buf ∷ [] })

dispatch-IsKept :
    (regs : SyscallRegs) (s : System) (i : ℕ)
    → IsKept i (pcb s.proc i) (pcb (dispatch regs s).1.proc i)
unfolding dispatch yield_cpu
dispatch-IsKept regs s i =
    let P : SyscallRegs × System → Type 0 = λ r. IsKept i (pcb s.proc i) (pcb r.1.proc i) in
    let same = IsKept-refl i (pcb s.proc i) in
    if-cases P (regs.rax == sys_write) _ _
      (λ _.
        subst (λ (p : Proc). IsKept i (pcb s.proc i) (pcb p i))
          (sym (write_bytes-proc regs.rdx regs.rsi s)) same)
      λ _.
        if-cases P (regs.rax == sys_exit) _ _ (λ _. tick-IsKept s.proc i)
          λ _.
            if-cases P (regs.rax == sys_getpid) _ _ (λ _. same)
              λ _.
                if-cases P (regs.rax == sys_yield) _ _ (λ _. tick-IsKept s.proc i)
                  λ _. if-cases P (regs.rax == sys_getticks) _ _ (λ _. same) (λ _. same)

-- No system call ends, frees or blocks a process, not even SYS_EXIT: after it every slot holds the
-- same process with the same stack, in the state that it was in, or, if it was ready or running, ready
-- or running; but that slot 0 may be made to run whatever its state was. Only the counts of its turns
-- may differ.
pub syscall_handler-IsKept :
    (regs : SyscallRegs) (s : System) (i : ℕ)
    → IsKept i (pcb s.proc i) (pcb (syscall_handler regs s).1.proc i)
unfolding syscall_handler
syscall_handler-IsKept regs s i =
    dispatch-IsKept regs (record s { syscall_count = add64 s.syscall_count 1 }) i
