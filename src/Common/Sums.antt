-- ===== src/Common/Sums.antt =====
-- Sums of a function over the numbers below a bound, and how one change of the function shows.
use Prim.Native.Nat.{ℕ, zero, suc, ◌+◌, ◌≤◌, ◌<◌}
use mathlib.Core.Path.{◌≡◌, refl}
use mathlib.Core.Logic.{◌≢◌}
use native.Mathlib.Omega.{arith}
use native.Mathlib.Decide.{dec_lt}

unfoldable pub sum_below : ℕ → (ℕ → ℕ) → ℕ
sum_below zero f = 0
sum_below (suc n) f = sum_below n f + f n

pub sum_below-suc : (n : ℕ) (f : ℕ → ℕ) → sum_below (suc n) f ≡ sum_below n f + f n
unfolding sum_below
sum_below-suc n f = refl

pub sum_below-eq :
    (n : ℕ) (f g : ℕ → ℕ) → ((x : ℕ) → x < n → f x ≡ g x) → sum_below n f ≡ sum_below n g
unfolding sum_below
sum_below-eq zero f g h = refl
sum_below-eq (suc n) f g h =
    omega (arith, h n (omega arith), sum_below-eq n f g (λ x lt. h x (omega arith)))

-- A function that changes at one place.
pub sum_below-set :
    (n i : ℕ) (f g : ℕ → ℕ)
    → i < n
    → ((x : ℕ) → x < n → x ≢ i → g x ≡ f x)
    → sum_below n g + f i ≡ sum_below n f + g i
unfolding sum_below
sum_below-set zero i f g lt h = absurd (omega arith)
sum_below-set (suc n) i f g lt h = elim (dec_lt i n) [
  | yes below ↦ omega (
    arith,
    h n (omega arith) (λ e. omega arith),
    sum_below-set n i f g below (λ x lt' ne. h x (omega arith) ne),
  )
  | no above ↦
      let e : i ≡ n = omega arith in
      rw (e) (omega (arith, sum_below-eq n g f (λ x lt'. h x (omega arith) (λ e'. omega arith))))
]

pub sum_below_one : (n i : ℕ) (f : ℕ → ℕ) → i < n → f i ≤ sum_below n f
unfolding sum_below
sum_below_one zero i f lt = absurd (omega arith)
sum_below_one (suc n) i f lt = elim (dec_lt i n) [
  | yes below ↦ omega (arith, sum_below_one n i f below)
  | no above ↦ let e : i ≡ n = omega arith in rw (e) (omega arith)
]

pub sum_below_two : (n i j : ℕ) (f : ℕ → ℕ) → i < n → j < i → f i + f j ≤ sum_below n f
unfolding sum_below
sum_below_two zero i j f lt h = absurd (omega arith)
sum_below_two (suc n) i j f lt h = elim (dec_lt i n) [
  | yes below ↦ omega (arith, sum_below_two n i j f below h)
  | no above ↦
      let e : i ≡ n = omega arith in
      let one = sum_below_one n j f (omega arith) in rw (e) (omega arith)
]
