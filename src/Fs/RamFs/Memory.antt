-- ===== src/Fs/RamFs/Memory.antt =====
-- The pool as memory: what a write of bytes changes, and what a read then sees.
use barry_os.Common.{
  ℕ, List, ◌<◌, ◌⊎◌, ◌+◌, ◌≤◌, length, ◌≡◌, ◌∷◌, ap₂, take, inl, arith, subst, ◌∙◌, eq→==, refl,
  inr, [],
}
use Prim.Native.Nat.{suc, zero}
use barry_os.Fs.RamFs.{write_bytes, read_bytes, poke}

pub write_bytes_outside :
    (p : ℕ → ℕ) (a x : ℕ) (bs : List ℕ) → x < a ⊎ a + length bs ≤ x → write_bytes p a bs x ≡ p x
unfolding write_bytes poke
write_bytes_outside p a x [] h = refl
write_bytes_outside p a x (b ∷ bs) (inl h) =
    write_bytes_outside (poke p a b) (a + 1) x bs (inl (omega arith)) ∙ ground arith
write_bytes_outside p a x (b ∷ bs) (inr h) =
    write_bytes_outside (poke p a b) (a + 1) x bs (inr (omega arith)) ∙ ground arith

-- What was written is read back.
pub read_bytes-write_bytes :
    (p : ℕ → ℕ) (a n : ℕ) (bs : List ℕ)
    → n ≤ length bs
    → read_bytes (write_bytes p a bs) a n ≡ take n bs
unfolding write_bytes read_bytes poke
read_bytes-write_bytes p a zero bs h = refl
read_bytes-write_bytes p a (suc n) [] h = absurd (omega arith)
read_bytes-write_bytes p a (suc n) (b ∷ bs) h =
    ap₂ ◌∷◌ (write_bytes_outside (poke p a b) (a + 1) a bs (inl (omega arith)) ∙ here p a b)
      (read_bytes-write_bytes (poke p a b) (a + 1) n bs (omega arith))
  where
    here : (p : ℕ → ℕ) (a b : ℕ) → poke p a b a ≡ b
    here p a b = rw (poke, eq→== a a refl) refl

pub read_bytes_same :
    (p q : ℕ → ℕ) (a n : ℕ)
    → ((i : ℕ) → i < n → p (a + i) ≡ q (a + i))
    → read_bytes p a n ≡ read_bytes q a n
unfolding read_bytes
read_bytes_same p q a zero h = refl
read_bytes_same p q a (suc n) h =
    ap₂ ◌∷◌ (subst (λ x. p x ≡ q x) {x = a + 0} (omega arith) (h 0 (omega arith))) (
      read_bytes_same p q (a + 1) n
        (λ i lt. subst (λ x. p x ≡ q x) {x = a + suc i} (omega arith) (h (suc i) (omega arith))))
