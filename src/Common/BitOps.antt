-- ===== src/Common/BitOps.antt =====
-- `|` and `^` where the numbers are known to share no digit, or the mask is full.
use barry_os.Common.{
  ℕ, zero, suc, bit_or, bit_xor, ◌≤◌, ◌<◌, ◌≡◌, ◌^◌, ◌/◌, ◌-◌, arith, ◌*◌, ◌+◌, ◌%◌, ap, refl,
}
use barry_os.Common.Masks.{positive}
use native.Mathlib.Nat.{pow-succ'}
use Prim.Native.Nat.{digits, max, differ, bit_or-bitwise, bit_xor-bitwise}

-- The fuel of the digit recursion does not matter once it is enough.
disj_enough : (f g a b : ℕ) → a ≤ f → a ≤ g → digits (λ c. c) max f a b ≡ digits (λ c. c) max g a b
disj_enough zero zero a b p q = refl
disj_enough zero (suc g) zero b p q = refl
disj_enough (suc f) zero zero b p q = refl
disj_enough (suc f) (suc g) zero b p q = refl
disj_enough (suc f) (suc g) (suc a) b p q =
    omega (arith, disj_enough f g (suc a / 2) (b / 2) (omega arith) (omega arith))
disj_enough f g a b p q = absurd (omega arith)

-- One binary digit of a disjunction.
pub bit_or_halve : (a b : ℕ) → bit_or a b ≡ bit_or (a / 2) (b / 2) * 2 + max (a % 2) (b % 2)
bit_or_halve zero b = omega (arith, bit_or-bitwise 0 b, bit_or-bitwise 0 (b / 2))
bit_or_halve (suc a) b =
    let short = disj_enough a (suc a / 2) (suc a / 2) (b / 2) (omega arith) (omega arith) in
    omega (arith, bit_or-bitwise (suc a) b, bit_or-bitwise (suc a / 2) (b / 2), short)

-- `x | y << w` for an `x` of `w` bits.
pub bit_or_above : (w x y : ℕ) → x < 2 ^ w → bit_or x (y * 2 ^ w) ≡ x + y * 2 ^ w
bit_or_above zero x y h =
    let e : x ≡ 0 = omega arith in rw e (omega (arith, bit_or-bitwise 0 (y * 1)))
bit_or_above (suc w) x y h =
    let shifted : y * 2 ^ suc w ≡ 2 * (y * 2 ^ w) =
      omega (arith, ap (λ (t : ℕ). y * t) (pow-succ' 2 w)) in
    let half : y * 2 ^ suc w / 2 ≡ y * 2 ^ w = omega (arith, shifted) in
    omega (
      arith,
      bit_or_halve x (y * 2 ^ suc w),
      ap (bit_or (x / 2)) half,
      shifted,
      bit_or_above w (x / 2) y (omega (arith, pow-succ' 2 w)),
    )

excl_enough :
    (f g a b : ℕ) → a ≤ f → a ≤ g → digits (λ c. c) differ f a b ≡ digits (λ c. c) differ g a b
excl_enough zero zero a b p q = refl
excl_enough zero (suc g) zero b p q = refl
excl_enough (suc f) zero zero b p q = refl
excl_enough (suc f) (suc g) zero b p q = refl
excl_enough (suc f) (suc g) (suc a) b p q =
    omega (arith, excl_enough f g (suc a / 2) (b / 2) (omega arith) (omega arith))
excl_enough f g a b p q = absurd (omega arith)

-- One binary digit of an exclusive disjunction.
pub bit_xor_halve : (a b : ℕ) → bit_xor a b ≡ bit_xor (a / 2) (b / 2) * 2 + differ (a % 2) (b % 2)
bit_xor_halve zero b = ground (arith, bit_xor-bitwise 0 b, bit_xor-bitwise 0 (b / 2))
bit_xor_halve (suc a) b =
    let short = excl_enough a (suc a / 2) (suc a / 2) (b / 2) (omega arith) (omega arith) in
    omega (arith, bit_xor-bitwise (suc a) b, bit_xor-bitwise (suc a / 2) (b / 2), short)

differ_one : (d : ℕ) → d < 2 → differ d 1 ≡ 1 - d
differ_one zero h = refl
differ_one (suc zero) h = refl
differ_one (suc (suc d)) h = absurd (omega arith)

-- `x ^ (2^w - 1)` turns over all bits of a word.
pub bit_xor_full : (w x : ℕ) → x < 2 ^ w → bit_xor x (2 ^ w - 1) ≡ 2 ^ w - 1 - x
bit_xor_full zero x h = let e : x ≡ 0 = omega arith in rw e refl
bit_xor_full (suc w) x h =
    let half : (2 ^ suc w - 1) / 2 ≡ 2 ^ w - 1 = omega (arith, pow-succ' 2 w, positive w) in
    let odd : (2 ^ suc w - 1) % 2 ≡ 1 = omega (arith, pow-succ' 2 w, positive w) in
    omega (
      arith,
      bit_xor_halve x (2 ^ suc w - 1),
      ap (bit_xor (x / 2)) half,
      ap (differ (x % 2)) odd,
      differ_one (x % 2) (omega arith),
      bit_xor_full w (x / 2) (omega (arith, pow-succ' 2 w)),
      pow-succ' 2 w,
      positive w,
    )
