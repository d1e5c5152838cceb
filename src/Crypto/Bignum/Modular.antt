-- ===== src/Crypto/Bignum/Modular.antt =====
-- kernel/src/crypto/bignum.rs: `add_mod` adds modulo the modulus.
use barry_os.Common.{
  take_all, refl, length, ◌≡◌, true, All, ◌<◌, false, if◌then◌else◌, ltb, ◌≤◌, clash, ◌+◌, arith,
  ◌-◌, take, ap, take_all, ◌⊎◌, ge→ltb, suc, inr, inl, zero, Bool-cases, lt→ltb,
}
use barry_os.Crypto.Bignum.{cmp, sub_into, add_into, is_less, add_mod, List, ℕ, Ordering}
use barry_os.Crypto.Bignum.Values.{value, at_limb, IsLimb, add_into-value, sub_into-value}
use barry_os.Crypto.Bignum.Compare.{IsOrdering, cmp-IsOrdering, value_lt}

less-IsOrdering :
    (x y : ℕ) (o : Ordering)
    → IsOrdering x y o
    → (is_less o ≡ true → x < y) × (is_less o ≡ false → y ≤ x)
less-IsOrdering x y Ordering.lt h = (λ e. h, λ e. absurd (clash refl e))
less-IsOrdering x y Ordering.eq h = (λ e. absurd (clash e refl), λ e. omega (arith, h))
less-IsOrdering x y Ordering.gt h = (λ e. absurd (clash e refl), λ e. omega (arith, h))

at_limb-zero : (n : ℕ) → at_limb 0 n ≡ 0
at_limb-zero zero = refl
at_limb-zero (suc n) = omega (arith, at_limb-zero n)

-- A carry is nothing, or one in its place.
at_limb_bit :
    (c n k : ℕ)
    → c ≤ 1
    → k ≡ n
    → ((c ≡ 0) × (at_limb c k ≡ 0)) ⊎ ((c ≡ 1) × (at_limb c k ≡ at_limb 1 n))
at_limb_bit zero n k h e = inl (refl, at_limb-zero k)
at_limb_bit (suc zero) n k h e = inr (refl, ap (at_limb 1) e)
at_limb_bit (suc (suc c)) n k h e = absurd (omega arith)

value_bound : (a : List ℕ) (n : ℕ) → length a ≡ n → All IsLimb a → value a < at_limb 1 n
value_bound a n e h = omega (arith, value_lt a n h, ap value (take_all n a (omega (arith, e))))

-- The sum of two numbers below the modulus, all of as many limbs, is their sum modulo it, below it and of
-- as many limbs.
pub add_mod_lem :
    (a b m : List ℕ)
    → length a ≡ length m
    → length b ≡ length m
    → All IsLimb a
    → All IsLimb b
    → All IsLimb m
    → value a < value m
    → value b < value m
    → (value (add_mod a b m) ≡ (
        if ltb (value a + value b) (value m)
        then value a + value b
        else value a + value b - value m))
      × All IsLimb (add_mod a b m)
      × (length (add_mod a b m) ≡ length m)
unfolding add_mod
add_mod_lem a b m ea eb la lb lm ha hb =
    let n = length m in
    let (r, carry) = add_into a b 0 in
    let (total, limbs, sized, one) =
      add_into-value a b 0 (omega (arith, ea, eb)) la lb (omega arith) in
    let er : length r ≡ n = omega (arith, sized, ea) in
    let (d, borrow) = sub_into r m 0 in
    let (diff, limbs', sized', bit) = sub_into-value r m 0 er limbs lm (omega arith) in
    let whole = ap value (take_all n r (omega (arith, er))) in
    let whole' = ap value (take_all n m (omega arith)) in
    let (less, notless) =
      less-IsOrdering (value (take n r)) (value (take n m)) (cmp r m n)
        (cmp-IsOrdering r m n (omega (arith, er)) (omega arith) limbs lm) in
    let top = value_bound r n er limbs in
    let top' = value_bound m n refl lm in
    let top'' = value_bound d n (omega (arith, sized', er)) limbs' in
    let P : List ℕ → Type 0 = λ s.
      (value s ≡ (
        if ltb (value a + value b) (value m)
        then value a + value b
        else value a + value b - value m))
      × All IsLimb s
      × (length s ≡ n) in
    let taken : value m ≤ value a + value b → value d ≡ value a + value b - value m → P d =
      λ ge e. (rw (ge→ltb (value a + value b) (value m) ge) e, limbs', omega (arith, sized', er)) in
    elim (at_limb_bit carry n (length a) one ea) [
      | inr (c, at) ↦ elim (at_limb_bit borrow n (length r) bit er) [
        | inl (z, none) ↦ absurd (omega (arith, total, at, diff, none, ha, hb, top, top', top''))
        | inr (z, some) ↦ rw (c) (
            taken (omega (arith, total, at, top'))
              (omega (arith, total, at, diff, some, top'', top')))
      ]
      | inl (c, at) ↦ rw (c) (elim (Bool-cases (is_less (cmp r m n))) [
        | inl h ↦
            let below = less h in
            rw (h) (
              (
                rw
                    (lt→ltb (value a + value b) (value m)
                      (omega (arith, total, at, below, whole, whole')))
                    (omega (arith, total, at)),
                limbs,
                er,
              ))
        | inr h ↦
            let above = notless h in
            rw (h) (elim (at_limb_bit borrow n (length r) bit er) [
              | inl (z, none) ↦
                  taken (omega (arith, total, at, above, whole, whole'))
                    (omega (arith, total, at, diff, none))
              | inr (z, some) ↦ absurd (omega (arith, diff, some, above, whole, whole', top'', top))
            ])
      ])
    ]
