-- ===== src/Common/Loops.antt =====
-- Counting: how many numbers below a bound pass a test, and how one change of the test counts.
use Prim.Native.Nat.{ℕ, zero, suc, ◌+◌, ◌≤◌, ◌<◌}
use mathlib.Core.Path.{◌≡◌, refl, sym, subst}
use mathlib.Core.Logic.{◌≢◌}
use mathlib.Core.Bool.{Bool, true, false}
use native.Mathlib.Omega.{arith}
use native.Mathlib.Decide.{dec_lt}
use barry_os.Common.Tests.{if◌then◌else◌}

-- How many `x < n` pass the test.
pub count_below : ℕ → (ℕ → Bool) → ℕ
count_below zero p = 0
count_below (suc n) p = count_below n p + (if p n then 1 else 0)

pub count_below-eq :
    (n : ℕ) (p q : ℕ → Bool) → ((x : ℕ) → x < n → p x ≡ q x) → count_below n p ≡ count_below n q
unfolding count_below
count_below-eq zero p q h = refl
count_below-eq (suc n) p q h = ground (arith, h n, count_below-eq n p q (λ x lt. h x (omega arith)))

-- A test that newly passes at one place counts one more.
pub count_below-set :
    (n i : ℕ) (p q : ℕ → Bool)
    → i < n
    → p i ≡ false
    → q i ≡ true
    → ((x : ℕ) → x < n → x ≢ i → q x ≡ p x)
    → count_below n q ≡ count_below n p + 1
unfolding count_below
count_below-set zero i p q hi hp hq same = absurd (omega arith)
count_below-set (suc n) i p q hi hp hq same = elim (dec_lt i n) [
  | yes below ↦ ground (
    arith,
    same n (omega arith) (omega arith),
    count_below-set n i p q below hp hq (λ x lt ne. same x (omega arith) ne),
  )
  | no above ↦
      let e : i ≡ n = omega arith in
      let hp' = subst (λ k. p k ≡ false) e hp in
      let hq' = subst (λ k. q k ≡ true) e hq in
      ground (arith, hp', hq', count_below-eq n q p (λ x lt. same x (omega arith) (omega arith)))
]

-- One that no longer passes at one place counts one less.
pub count_below-clear :
    (n i : ℕ) (p q : ℕ → Bool)
    → i < n
    → p i ≡ true
    → q i ≡ false
    → ((x : ℕ) → x < n → x ≢ i → q x ≡ p x)
    → count_below n q + 1 ≡ count_below n p
count_below-clear n i p q hi hp hq same =
    sym (count_below-set n i q p hi hq hp (λ x lt ne. sym (same x lt ne)))

pub count_below_le : (n : ℕ) (p : ℕ → Bool) → count_below n p ≤ n
unfolding count_below
count_below_le zero p = omega arith
count_below_le (suc n) p = ground (arith, count_below_le n p)

-- A fact about the numbers from `i` on is one about `i` and one about those from `i + 1` on.
pub range_cons {ℓ} :
    (P : ℕ → Type ℓ) (i j : ℕ)
    → P i
    → ((m : ℕ) → i + 1 ≤ m → m < j → P m)
    → (m : ℕ) → i ≤ m
    → m < j
    → P m
range_cons P i j here later m lo hi = elim (dec_lt i m) [
  | yes above ↦ later m (omega arith) hi
  | no at ↦ subst P (omega arith) here
]
