-- ===== src/Common/Masks.antt =====
-- `x & mask` for the masks that the kernel writes as `!(2^k - 1)` on a `w`-bit word.
use barry_os.Common.{
  ℕ, zero, bit_and, ◌≤◌, ◌<◌, min, ◌≡◌, ◌^◌, suc, ◌/◌, ◌-◌, arith, ◌*◌, ◌+◌, ◌%◌, ap, ◌∙◌, sym,
}
use mathlib.Core.Path.{refl}
use native.Mathlib.Nat.{pow-succ', div-div-eq-div-mul}
use Prim.Native.Nat.{digits, bit_and-bitwise}

-- The fuel of the digit recursion does not matter once it is enough.
abbrev conj : ℕ → ℕ → ℕ → ℕ
conj fuel a b = digits (λ c. zero) min fuel a b

conj_enough : (f g a b : ℕ) → a ≤ f → a ≤ g → conj f a b ≡ conj g a b
conj_enough zero zero a b p q = refl
conj_enough zero (suc g) zero b p q = refl
conj_enough (suc f) zero zero b p q = refl
conj_enough (suc f) (suc g) zero b p q = refl
conj_enough (suc f) (suc g) (suc a) b p q =
    omega (arith, conj_enough f g (suc a / 2) (b / 2) (omega arith) (omega arith))
conj_enough f g a b p q = absurd (omega arith)

-- One binary digit of a conjunction.
pub bit_and_halve : (a b : ℕ) → bit_and a b ≡ bit_and (a / 2) (b / 2) * 2 + min (a % 2) (b % 2)
bit_and_halve zero b = omega (arith, bit_and-bitwise 0 b, bit_and-bitwise 0 (b / 2))
bit_and_halve (suc a) b =
    let short = conj_enough a (suc a / 2) (suc a / 2) (b / 2) (omega arith) (omega arith) in
    omega (arith, bit_and-bitwise (suc a) b, bit_and-bitwise (suc a / 2) (b / 2), short)

double : (w : ℕ) → 2 ^ suc w ≡ 2 * 2 ^ w
double w = pow-succ' 2 w

pub positive : (w : ℕ) → 0 < 2 ^ w
positive zero = omega arith
positive (suc w) = omega (arith, double w, positive w)

-- A full mask keeps a word.
pub bit_and_full : (w x : ℕ) → x < 2 ^ w → bit_and x (2 ^ w - 1) ≡ x
bit_and_full zero x h = let e : x ≡ 0 = omega arith in rw e refl
bit_and_full (suc w) x h = omega (
  arith,
  double w,
  positive w,
  bit_and_halve x (2 ^ suc w - 1),
  ap (bit_and (x / 2)) halved,
  bit_and_full w (x / 2) (omega (arith, double w)),
)
  where
    halved : (2 ^ suc w - 1) / 2 ≡ 2 ^ w - 1
    halved = omega (arith, double w, positive w)

pow_le : (k w : ℕ) → k ≤ w → 2 ^ k ≤ 2 ^ w
pow_le zero w h = positive w
pow_le (suc k) zero h = absurd (omega arith)
pow_le (suc k) (suc w) h = omega (arith, double k, double w, pow_le k w (omega arith))

-- `x & !(2^k - 1)` rounds down to a multiple of `2^k`.
pub bit_and_high : (k w x : ℕ) → k ≤ w → x < 2 ^ w → bit_and x (2 ^ w - 2 ^ k) ≡ x / 2 ^ k * 2 ^ k
bit_and_high zero w x h lt = omega (arith, bit_and_full w x lt)
bit_and_high (suc k) zero x h lt = absurd (omega arith)
bit_and_high (suc k) (suc w) x h lt =
    let high = bit_and_high k w (x / 2) (omega arith) (omega (arith, double w)) in
    let quotient : x / 2 / 2 ^ k ≡ x / 2 ^ suc k =
      div-div-eq-div-mul x 2 (2 ^ k) ∙ ap (λ d. x / d) (sym (double k)) in
    bit_and_halve x (2 ^ suc w - 2 ^ suc k)
    ∙ rw (halved, even, high, quotient) (rw (double k) (omega arith))
  where
    halved : (2 ^ suc w - 2 ^ suc k) / 2 ≡ 2 ^ w - 2 ^ k
    halved = omega (arith, double w, double k, pow_le k w (omega arith))

    even : (2 ^ suc w - 2 ^ suc k) % 2 ≡ 0
    even = omega (arith, double w, double k, pow_le k w (omega arith))
