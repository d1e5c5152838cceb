-- ===== src/Crypto/Bignum/Compare.antt =====
-- kernel/src/crypto/bignum.rs: `cmp` compares the numbers.
use barry_os.Common.{
  refl, ==→ne, ◌<◌, ◌≤◌, All, arith, take, length, ◌≡◌, ◌+◌, ◌≢◌, suc, get_or, ◌∷◌, zero, if-cases,
  [], ◌==◌, ◌∙◌, ap, sym, ==→eq, ==→ne,
}
use barry_os.Crypto.Bignum.{cmp, ℕ, List, compare, Ordering}
use barry_os.Crypto.Bignum.Values.{value, at_limb, IsLimb}

pub at_limb_pos : (n : ℕ) → 1 ≤ at_limb 1 n
at_limb_pos zero = omega arith
at_limb_pos (suc n) = omega (arith, at_limb_pos n)

-- The first `n` limbs stand for less than the place of limb `n`.
pub value_lt : (a : List ℕ) (n : ℕ) → All IsLimb a → value (take n a) < at_limb 1 n
value_lt a zero h = omega arith
value_lt [] (suc n) h = omega (arith, at_limb_pos n)
value_lt (x ∷ a) (suc n) h = omega (arith, value_lt a n h.1, h.0)

value-take :
    (a : List ℕ) (n : ℕ)
    → n < length a
    → value (take (suc n) a) ≡ value (take n a) + at_limb (get_or a n 0) n
value-take [] n h = absurd (omega arith)
value-take (x ∷ a) zero h = omega arith
value-take (x ∷ a) (suc n) h = omega (arith, value-take a n (omega arith))

at_limb_mono : (x y n : ℕ) → x < y → at_limb x n + at_limb 1 n ≤ at_limb y n
at_limb_mono x y zero h = omega arith
at_limb_mono x y (suc n) h = omega (arith, at_limb_mono x y n h)

-- How two numbers compare.
abbrev pub IsOrdering : ℕ → ℕ → Ordering → Type 0
IsOrdering x y Ordering.lt = x < y
IsOrdering x y Ordering.eq = x ≡ y
IsOrdering x y Ordering.gt = y < x

compare-IsOrdering : (x y : ℕ) → IsOrdering x y (compare x y)
compare-IsOrdering x y = ground arith

add-IsOrdering :
    (x y u v : ℕ) (o : Ordering) (w : ℕ)
    → IsOrdering u v o
    → x ≡ u + w
    → y ≡ v + w
    → IsOrdering x y o
add-IsOrdering x y u v Ordering.lt w h a b = omega (arith, h, a, b)
add-IsOrdering x y u v Ordering.eq w h a b = omega (arith, h, a, b)
add-IsOrdering x y u v Ordering.gt w h a b = omega (arith, h, a, b)

-- The highest limb decides when it differs.
top-IsOrdering :
    (x y u v : ℕ) (a b : List ℕ) (n : ℕ) (o : Ordering)
    → All IsLimb a
    → All IsLimb b
    → x ≡ value (take n a) + at_limb u n
    → y ≡ value (take n b) + at_limb v n
    → IsOrdering u v o
    → u ≢ v
    → IsOrdering x y o
top-IsOrdering x y u v a b n Ordering.lt la lb ta tb h ne =
    omega (arith, ta, tb, at_limb_mono u v n h, value_lt a n la)
top-IsOrdering x y u v a b n Ordering.eq la lb ta tb h ne = absurd (ne h)
top-IsOrdering x y u v a b n Ordering.gt la lb ta tb h ne =
    omega (arith, ta, tb, at_limb_mono v u n h, value_lt b n lb)

pub cmp-IsOrdering :
    (a b : List ℕ) (n : ℕ)
    → n ≤ length a
    → n ≤ length b
    → All IsLimb a
    → All IsLimb b
    → IsOrdering (value (take n a)) (value (take n b)) (cmp a b n)
unfolding cmp
cmp-IsOrdering a b zero ha hb la lb = refl
cmp-IsOrdering a b (suc n) ha hb la lb =
    let x = get_or a n 0 in
    let y = get_or b n 0 in
    let ta = value-take a n ha in
    let tb = value-take b n hb in
    if-cases (IsOrdering (value (take (suc n) a)) (value (take (suc n) b))) (x == y) _ _
      (λ h.
        add-IsOrdering _ _ (value (take n a)) (value (take n b)) (cmp a b n) (at_limb x n)
          (cmp-IsOrdering a b n (omega arith) (omega arith) la lb) ta
          (tb ∙ ap (λ z. value (take n b) + at_limb z n) (sym (==→eq x y h))))
      λ h.
        top-IsOrdering _ _ x y a b n (compare x y) la lb ta tb (compare-IsOrdering x y)
          (==→ne x y h)
