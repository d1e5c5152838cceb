-- ===== src/Proc/Process/Slots.antt =====
-- The search for a free block.
use barry_os.Common.{
  ℕ, arith, ◌<◌, ◌+◌, ◌≡◌, true, false, some, Bool-cases, none, inl, inr, refl, ℕ_discrete,
}
use Prim.Native.Nat.{suc, zero}
use barry_os.Proc.Process.{Proc, first_free, alloc_slot, pcb, is_free, max_processes, Option}

-- What `alloc_slot` returns: the first free block, or none when every block is in use.
pub data Finds (s : Proc) : Option ℕ → Type 0 where
  finds :
      (i : ℕ)
      → i < max_processes
      → is_free (pcb s i).state ≡ true
      → ((j : ℕ) → j < i → is_free (pcb s j).state ≡ false)
      → Finds s (some i)
  full : ((j : ℕ) → j < max_processes → is_free (pcb s j).state ≡ false) → Finds s none

first_free_lem :
    (s : Proc) (k i : ℕ)
    → i + k ≡ max_processes
    → ((j : ℕ) → j < i → is_free (pcb s j).state ≡ false)
    → Finds s (first_free s k i)
unfolding first_free
first_free_lem s zero i e h = full (λ j lt. h j (omega arith))
first_free_lem s (suc k) i e h = elim (Bool-cases (is_free (pcb s i).state)) [
  | inl t ↦ rw (t) (finds i (omega arith) t h)
  | inr f ↦ rw (f) (
      first_free_lem s k (i + 1) (omega arith)
        (λ j lt. elim (ℕ_discrete j i) [ yes z ↦ rw (z) f | no nz ↦ h j (omega arith) ]))
]

-- `alloc_slot` finds the first free block, and fails only when all are in use.
pub alloc_slot_lem : (s : Proc) → Finds s (alloc_slot s)
unfolding alloc_slot
alloc_slot_lem s = first_free_lem s 16 0 refl (λ j lt. absurd (omega arith))
