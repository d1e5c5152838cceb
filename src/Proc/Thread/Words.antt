-- ===== src/Proc/Thread/Words.antt =====
-- The writes of `clear_words` and `push_words` to the memory of a new stack.
use barry_os.Common.Words.{u64_mod, sub64}
use barry_os.Proc.Thread.{clear_words, push_words, store}
use barry_os.Common.{
  ℕ, List, ◌≢◌, ◌<◌, ◌≡◌, ◌*◌, ne→==, length, eq→==, ◌⊎◌, ◌≤◌, refl, ◌+◌, suc, ◌-◌, inl, arith, ◌∷◌,
  get_or, ◌∙◌, inr, ap, zero, [],
}

store_ne : (m : ℕ → ℕ) (a v x : ℕ) → x ≢ a → store m a v x ≡ m x
unfolding store
store_ne m a v x ne = rw (ne→== x a ne)

store_self : (m : ℕ → ℕ) (a v : ℕ) → store m a v a ≡ v
unfolding store
store_self m a v = rw (eq→== a a refl)

pub clear_words_outside :
    (n a x : ℕ) (m : ℕ → ℕ) → (x < a) ⊎ (a + 8 * n ≤ x) → clear_words n a m x ≡ m x
unfolding clear_words
clear_words_outside zero a x m h = refl
clear_words_outside (suc n) a x m (inl h) =
    clear_words_outside n (a + 8) x (store m a 0) (inl (omega arith))
    ∙ store_ne m a 0 x (omega arith)
clear_words_outside (suc n) a x m (inr h) =
    clear_words_outside n (a + 8) x (store m a 0) (inr (omega arith))
    ∙ store_ne m a 0 x (omega arith)

pub push_words_outside :
    (vs : List ℕ) (sp x : ℕ) (m : ℕ → ℕ)
    → 8 * length vs ≤ sp
    → sp < u64_mod
    → (x < sp - 8 * length vs) ⊎ (sp ≤ x)
    → push_words vs sp m x ≡ m x
unfolding push_words
push_words_outside [] sp x m fits word h = refl
push_words_outside (v ∷ vs) sp x m fits word h =
    let here : sub64 sp 8 ≡ sp - 8 = omega arith in
    push_words_outside vs (sub64 sp 8) x (store m (sub64 sp 8) v) (omega (arith, here))
      (omega (arith, here)) (below here h)
    ∙ store_ne m (sub64 sp 8) v x (apart here h)
  where
    below :
        sub64 sp 8 ≡ sp - 8
        → (x < sp - 8 * length (v ∷ vs)) ⊎ (sp ≤ x)
        → (x < sub64 sp 8 - 8 * length vs) ⊎ (sub64 sp 8 ≤ x)
    below here (inl h) = inl (omega (arith, here))
    below here (inr h) = inr (omega (arith, here))

    apart : sub64 sp 8 ≡ sp - 8 → (x < sp - 8 * length (v ∷ vs)) ⊎ (sp ≤ x) → x ≢ sub64 sp 8
    apart here (inl h) = omega (arith, here)
    apart here (inr h) = omega (arith, here)

-- The words stand one below the other.
pub push_words_lem :
    (vs : List ℕ) (i sp : ℕ) (m : ℕ → ℕ)
    → i < length vs
    → 8 * length vs ≤ sp
    → sp < u64_mod
    → push_words vs sp m (sp - 8 * (i + 1)) ≡ get_or vs i 0
unfolding push_words
push_words_lem [] i sp m lt fits word = absurd (omega arith)
push_words_lem (v ∷ vs) zero sp m lt fits word =
    let here : sub64 sp 8 ≡ sp - 8 = omega arith in
    let at : sp - 8 * (0 + 1) ≡ sub64 sp 8 = omega (arith, here) in
    ap (push_words (v ∷ vs) sp m) at
    ∙ push_words_outside vs (sub64 sp 8) (sub64 sp 8) (store m (sub64 sp 8) v) (omega (arith, here))
        (omega (arith, here)) (inr (omega arith))
    ∙ store_self m (sub64 sp 8) v
push_words_lem (v ∷ vs) (suc i) sp m lt fits word =
    let here : sub64 sp 8 ≡ sp - 8 = omega arith in
    let at : sp - 8 * (suc i + 1) ≡ sub64 sp 8 - 8 * (i + 1) = omega (arith, here) in
    ap (push_words (v ∷ vs) sp m) at
    ∙ push_words_lem vs i (sub64 sp 8) (store m (sub64 sp 8) v) (omega arith) (omega (arith, here))
        (omega (arith, here))
