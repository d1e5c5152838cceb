-- ===== src/Proc/Scheduler/RoundRobin.antt =====
-- Which process is next, and that at most one runs.
use barry_os.Common.{
  ℕ, Bool-cases, length, arith, ◌≡◌, inr, ◌<◌, ◌≤◌, true, inl, ◌+◌, ℕ_discrete, ◌%◌, eq→==, false,
  ne→==, refl, ap, if-cases, ◌≢◌, ◌∙◌, length-set, not, if◌then◌else◌, clash, sym, ◌==◌, ==→ne,
  subst, get_or, set, get_or-set_self, get_or-set_ne,
}
use Prim.Native.Nat.{suc, zero}
use barry_os.Proc.Process.{
  ready, empty, Proc, pcb, is_ready, is_running, max_processes, write_pcb, ProcessControlBlock,
}
use barry_os.Proc.Scheduler.{switch, find_from, find_next, tick, leave, enter}

-- What `find_next` chooses from slot `from_slot` on: the first ready process around the table, the
-- starting slot last, or slot 0 when none is ready.
pub data Chooses (s : Proc) (from_slot : ℕ) : ℕ → Type 0 where
  chooses :
      (j : ℕ)
      → 1 ≤ j
      → j ≤ max_processes
      → is_ready (pcb s ((from_slot + j) % max_processes)).state ≡ true
      → ((i : ℕ) → 1 ≤ i → i < j → is_ready (pcb s ((from_slot + i) % max_processes)).state ≡ false)
      → Chooses s from_slot ((from_slot + j) % max_processes)
  idles :
      ((i : ℕ)
        → 1 ≤ i
        → i ≤ max_processes
        → is_ready (pcb s ((from_slot + i) % max_processes)).state ≡ false)
      → Chooses s from_slot 0

find_from_lem :
    (s : Proc) (from_slot k i : ℕ)
    → 1 ≤ i
    → i + k ≡ max_processes + 1
    → ((j : ℕ) → 1 ≤ j → j < i → is_ready (pcb s ((from_slot + j) % max_processes)).state ≡ false)
    → Chooses s from_slot (find_from s from_slot k i)
unfolding find_from
find_from_lem s from_slot zero i pos e h = idles (λ j p le. h j p (omega arith))
find_from_lem s from_slot (suc k) i pos e h =
    elim (Bool-cases (is_ready (pcb s ((from_slot + i) % max_processes)).state)) [
      | inl t ↦ rw (t) (chooses i pos (omega arith) t h)
      | inr f ↦ rw (f) (
          find_from_lem s from_slot k (i + 1) (omega arith) (omega arith)
            (λ j p lt. elim (ℕ_discrete j i) [ yes z ↦ rw (z) f | no nz ↦ h j p (omega arith) ]))
    ]

-- `find_next` gives the first ready process in the order around the table from the slot after
-- `from_slot`, which itself comes last, or slot 0 when no process is ready.
pub find_next_lem : (s : Proc) (from_slot : ℕ) → Chooses s from_slot (find_next s from_slot)
unfolding find_next
find_next_lem s from_slot =
    find_from_lem s from_slot 16 1 (omega arith) refl (λ j p lt. absurd (omega arith))

-- The current slot is in the table, and no other process is running.
pub record IsSingle (s : Proc) : Type 0 where
  pub sized : length s.table ≡ max_processes
  pub current : s.current_slot < max_processes
  pub alone : (i : ℕ) → is_running (pcb s i).state ≡ true → i ≡ s.current_slot

find_next_lt : (s : Proc) (c : ℕ) (n : ℕ) → Chooses s c n → n < max_processes
find_next_lt s c n (chooses j p le r h) = omega arith
find_next_lt s c n (idles h) = omega arith

length-write_pcb :
    (s : Proc) (i : ℕ) (p : ProcessControlBlock) → length (write_pcb s i p).table ≡ length s.table
unfolding write_pcb
length-write_pcb s i p = length-set s.table i p

pcb-write_pcb :
    (s : Proc) (i j : ℕ) (p : ProcessControlBlock)
    → i < length s.table
    → pcb (write_pcb s i p) j ≡ (if i == j then p else pcb s j)
unfolding pcb write_pcb
pcb-write_pcb s i j p lt = elim (ℕ_discrete i j) [
  | yes e ↦
      rw (eq→== i j e)
        (subst (λ k. get_or (set s.table i p) k empty ≡ p) e (get_or-set_self s.table i p empty lt))
  | no ne ↦ rw (ne→== i j ne) (get_or-set_ne s.table i j p empty ne)
]

-- The process that is left does not run on.
left :
    (s : Proc) (cur : ℕ) → cur < length s.table → is_running (pcb (leave s cur) cur).state ≡ false
unfolding leave
left s cur lt =
    ap (λ p. is_running p.state) (pcb-write_pcb s cur cur _ lt)
    ∙ rw (eq→== cur cur refl) (
        if-cases (λ st. is_running st ≡ false) (is_running (pcb s cur).state) ready
          (pcb s cur).state (λ t. refl) (λ f. f))

pub left_other :
    (s : Proc) (cur i : ℕ) → cur < length s.table → i ≢ cur → pcb (leave s cur) i ≡ pcb s i
unfolding leave
left_other s cur i lt ne = pcb-write_pcb s cur i _ lt ∙ rw (ne→== cur i (λ e. ne (sym e))) refl

pub entered_other :
    (s : Proc) (next i : ℕ) → next < length s.table → i ≢ next → pcb (enter s next) i ≡ pcb s i
unfolding enter
entered_other s next i lt ne =
    pcb-write_pcb s next i _ lt ∙ rw (ne→== next i (λ e. ne (sym e))) refl

pub length-leave : (s : Proc) (cur : ℕ) → length (leave s cur).table ≡ length s.table
unfolding leave
length-leave s cur = length-write_pcb s cur _

pub length-enter : (s : Proc) (next : ℕ) → length (enter s next).table ≡ length s.table
unfolding enter
length-enter s next = length-write_pcb s next _

switch-IsSingle :
    (s : Proc) (next : ℕ)
    → IsSingle s
    → next < max_processes
    → next ≢ s.current_slot
    → IsSingle (switch s s.current_slot next)
unfolding switch pcb
switch-IsSingle s next v lt ne =
    let cur = s.current_slot in
    let sized = length-leave s cur ∙ v.sized in
    record {
      sized = length-enter (leave s cur) next ∙ sized;
      current = lt;
      alone = λ i r. elim (ℕ_discrete i next) [
        | yes e ↦ e
        | no other ↦
            let r' = rw (entered_other (leave s cur) next i (omega (arith, sized)) other) at r in
            elim (ℕ_discrete i cur) [
              | yes e ↦
                  absurd (clash (rw (e) at r') (left s cur (omega (arith, v.sized, v.current))))
              | no away ↦ absurd (
                  away (
                    v.alone i
                      (rw (left_other s cur i (omega (arith, v.sized, v.current)) away) at r')))
            ]
      ];
    }

-- If at most one process runs, the current one, and the current slot is in the table, then this is
-- so after a tick.
pub tick-IsSingle : (s : Proc) → IsSingle s → IsSingle (tick s)
unfolding tick
tick-IsSingle s v =
    let next = find_next s s.current_slot in
    let lt = find_next_lt s s.current_slot next (find_next_lem s s.current_slot) in
    if-cases IsSingle (not s.enabled) s _ (λ t. v)
      λ f.
        if-cases IsSingle (next == s.current_slot) s _ (λ t. v)
          λ g. switch-IsSingle s next v lt (==→ne _ _ g)
