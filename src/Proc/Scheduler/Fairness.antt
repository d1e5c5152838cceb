-- ===== src/Proc/Scheduler/Fairness.antt =====
-- kernel/src/proc/scheduler.rs: a process that is ready gets its turn.
use barry_os.Common.{
  ◌≡◌, length, dec_le, ◌≤◌, clash, ◌<◌, true, ◌⊎◌, ◌+◌, arith, ℕ_discrete, ◌≢◌, ◌%◌, inl, ◌∙◌, inr,
  ◌-◌, ap, subst, suc, if-cases, not, sym, zero, refl, ◌==◌, ==→eq,
}
use barry_os.Proc.Process.{write_pcb, Proc, pcb, is_ready, max_processes}
use barry_os.Proc.Scheduler.{switch, find_next, tick, leave, enter, ℕ}
use barry_os.Proc.Scheduler.RoundRobin.{
  Chooses, chooses, idles, find_next_lem, left_other, entered_other, length-leave, length-enter,
}

-- Scheduling is on, and a process other than the current one is ready, so many slots further on.
pub record IsReadyAt (s : Proc) (i distance : ℕ) : Type 0 where
  pub sized : length s.table ≡ max_processes
  pub current : s.current_slot < max_processes
  pub on : s.enabled ≡ true
  pub slot : (s.current_slot + distance) % max_processes ≡ i
  pub far : 1 ≤ distance
  pub near : distance < max_processes
  pub waits : is_ready (pcb s i).state ≡ true

-- How far the choice is, when a process that far is ready.
data IsNearer (s : Proc) (distance : ℕ) : ℕ → Type 0 where
  nearer :
      (j : ℕ) → 1 ≤ j → j ≤ distance → IsNearer s distance ((s.current_slot + j) % max_processes)

find_next-IsNearer :
    (s : Proc) (i distance next : ℕ)
    → IsReadyAt s i distance
    → Chooses s s.current_slot next
    → IsNearer s distance next
find_next-IsNearer s i distance next v (chooses j lo hi r before) = elim (dec_le j distance) [
  | yes le ↦ nearer j lo le
  | no gt ↦ absurd (clash (rw (← v.slot) at v.waits) (before distance v.far (omega (arith, gt))))
]
find_next-IsNearer s i distance next v (idles none) =
    absurd (clash (rw (← v.slot) at v.waits) (none distance v.far (omega (arith, v.near))))

pcb-switch :
    (s : Proc) (next i : ℕ)
    → length s.table ≡ max_processes
    → s.current_slot < max_processes
    → next < max_processes
    → i ≢ s.current_slot
    → i ≢ next
    → pcb (switch s s.current_slot next) i ≡ pcb s i
unfolding switch pcb
pcb-switch s next i sized cur lt a b =
    let sized' = length-leave s s.current_slot ∙ sized in
    entered_other (leave s s.current_slot) next i (omega (arith, sized')) b
    ∙ left_other s s.current_slot i (omega (arith, sized)) a

-- One tick: the process has its turn, or it is nearer and still ready.
tick_nearer :
    (s : Proc) (i distance next : ℕ)
    → IsReadyAt s i distance
    → IsNearer s distance next
    → let s' = switch s s.current_slot next in
      (s'.current_slot ≡ i) ⊎ ((d : ℕ) × (d < distance) × IsReadyAt s' i d)
unfolding switch enter leave write_pcb
tick_nearer s i distance next v (nearer j lo hi) = elim (ℕ_discrete j distance) [
  | yes e ↦ inl (rw (e) v.slot)
  | no ne ↦
      let next = (s.current_slot + j) % max_processes in
      inr (
        distance - j,
        omega (arith, ne),
        record {
          sized =
              length-enter (leave s s.current_slot) next ∙ length-leave s s.current_slot ∙ v.sized;
          current = omega arith;
          on = v.on;
          slot = omega (arith, v.slot);
          far = omega (arith, ne);
          near = omega (arith, v.near);
          waits =
              ap (λ p. is_ready p.state)
                (pcb-switch s next i v.sized v.current (omega arith)
                  (λ e. absurd (omega (arith, e, v.slot, v.far, v.near, v.current)))
                  (λ e. absurd (omega (arith, e, v.slot, ne, lo, hi, v.near, v.current))))
              ∙ v.waits;
        },
      )
]

tick-switch :
    (s : Proc) (next : ℕ)
    → s.enabled ≡ true
    → find_next s s.current_slot ≡ next
    → next ≢ s.current_slot
    → tick s ≡ switch s s.current_slot next
unfolding tick
tick-switch s next on e ne =
    let cur = s.current_slot in
    let P : Proc → Type 0 = λ o. o ≡ switch s cur next in
    if-cases P (not s.enabled) s _ (λ h. absurd (clash h (ap not on)))
      λ h.
        if-cases P (find_next s cur == cur) s _
          (λ g. absurd (ne (sym e ∙ ==→eq (find_next s cur) cur g))) (λ g. ap (switch s cur) e)

IsNearer-ne :
    (s : Proc) (i distance next : ℕ)
    → IsReadyAt s i distance
    → IsNearer s distance next
    → next ≢ s.current_slot
IsNearer-ne s i distance next v (nearer j lo hi) =
    λ e. absurd (omega (arith, e, lo, hi, v.near, v.current))

-- The timer's interrupts, one after the other.
unfoldable pub ticks : ℕ → Proc → Proc
ticks zero s = s
ticks (suc k) s = ticks k (tick s)

after_tick :
    (s : Proc) (i distance : ℕ)
    → IsReadyAt s i distance
    → ((tick s).current_slot ≡ i) ⊎ ((d : ℕ) × (d < distance) × IsReadyAt (tick s) i d)
after_tick s i distance v =
    let next = find_next s s.current_slot in
    let near = find_next-IsNearer s i distance next v (find_next_lem s s.current_slot) in
    subst (λ (u : Proc). (u.current_slot ≡ i) ⊎ ((d : ℕ) × (d < distance) × IsReadyAt u i d))
      (sym (tick-switch s next v.on refl (IsNearer-ne s i distance next v near)))
      (tick_nearer s i distance next v near)

-- While scheduling is on, a ready process becomes the current one within as many ticks as its slot is
-- away from the current one, going round the table: at most fifteen.
pub ticks-current_slot :
    (n : ℕ) (s : Proc) (i distance : ℕ)
    → IsReadyAt s i distance
    → distance ≤ n
    → (k : ℕ) × (k ≤ n) × ((ticks k s).current_slot ≡ i)
unfolding ticks
ticks-current_slot zero s i distance v h = absurd (omega (arith, v.far))
ticks-current_slot (suc n) s i distance v h = elim (after_tick s i distance v) [
  | inl e ↦ (1, omega arith, e)
  | inr (d, lt, v') ↦
      let (k, le, e) = ticks-current_slot n (tick s) i d v' (omega (arith, lt)) in
      (suc k, omega arith, e)
]
