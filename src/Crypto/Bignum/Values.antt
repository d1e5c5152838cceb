-- ===== src/Crypto/Bignum/Values.antt =====
-- kernel/src/crypto/bignum.rs: the routines compute on the numbers that the limbs stand for.
use barry_os.Common.{
  ◌+◌, ◌≤◌, ◌<◌, ◌*◌, ◌≡◌, ◌%◌, if-cases, [], zero, leb, ◌||◌, arith, All, length, refl, ◌-◌, ltb,
}
use barry_os.Common.Words.{u64_mod}
use barry_os.Crypto.Bignum.{add_limb, ℕ, List, ◌∷◌, ◌+◌, suc, sub_limb, add_into, sub_into}

abbrev pub value : List ℕ → ℕ
value [] = 0
value (x ∷ xs) = x + u64_mod * value xs

-- `c` in the place of limb `n`.
abbrev pub at_limb : ℕ → ℕ → ℕ
at_limb c zero = c
at_limb c (suc n) = u64_mod * at_limb c n

abbrev pub IsLimb : ℕ → Type 0
IsLimb x = x < u64_mod

-- One limb of a sum.
record IsSum (x y c : ℕ) (out : ℕ × ℕ) : Type 0 where
  total : x + y + c ≡ out.0 + u64_mod * out.1
  limb : out.0 < u64_mod
  carry : out.1 ≤ 1

add_limb-IsSum : (x y c : ℕ) → IsLimb x → IsLimb y → c ≤ 1 → IsSum x y c (add_limb x y c)
unfolding add_limb
add_limb-IsSum x y c hx hy hc =
    let v = (x + y) % u64_mod in
    if-cases (λ o. IsSum x y c ((v + c) % u64_mod, o)) (leb u64_mod (x + y) || leb u64_mod (v + c))
      1 0
      (λ h. record {
        total = ground (arith, h, hx, hy, hc);
        limb = omega arith;
        carry = omega arith;
      })
      (λ h. record {
        total = ground (arith, h, hx, hy, hc);
        limb = omega arith;
        carry = omega arith;
      })

pub add_into-value :
    (a b : List ℕ) (c : ℕ)
    → length a ≡ length b
    → All IsLimb a
    → All IsLimb b
    → c ≤ 1
    → let (r, last) = add_into a b c in
      (value a + value b + c ≡ value r + at_limb last (length a))
      × All IsLimb r
      × (length r ≡ length a)
      × (last ≤ 1)
unfolding add_into
add_into-value [] [] c e ha hb hc = (omega arith, tt, refl, hc)
add_into-value [] (y ∷ b) c e ha hb hc = absurd (omega arith)
add_into-value (x ∷ a) [] c e ha hb hc = absurd (omega arith)
add_into-value (x ∷ a) (y ∷ b) c e ha hb hc =
    let one = add_limb-IsSum x y c ha.0 hb.0 hc in
    let (total, limbs, sized, last) =
      add_into-value a b (add_limb x y c).1 (omega arith) ha.1 hb.1 one.carry in
    (omega (arith, one.total, total), (one.limb, limbs), omega (arith, sized), last)

-- One limb of a difference.
record IsDifference (x y c : ℕ) (out : ℕ × ℕ) : Type 0 where
  total : x + u64_mod * out.1 ≡ out.0 + y + c
  limb : out.0 < u64_mod
  borrow : out.1 ≤ 1

sub_limb-IsDifference :
    (x y c : ℕ) → IsLimb x → IsLimb y → c ≤ 1 → IsDifference x y c (sub_limb x y c)
unfolding sub_limb
sub_limb-IsDifference x y c hx hy hc =
    let v = (x + u64_mod - y) % u64_mod in
    if-cases (λ o. IsDifference x y c ((v + u64_mod - c) % u64_mod, o)) (ltb x y || ltb v c) 1 0
      (λ h. record {
        total = ground (arith, h, hx, hy, hc);
        limb = omega arith;
        borrow = omega arith;
      })
      (λ h. record {
        total = ground (arith, h, hx, hy, hc);
        limb = omega arith;
        borrow = omega arith;
      })

pub sub_into-value :
    (a b : List ℕ) (c : ℕ)
    → length a ≡ length b
    → All IsLimb a
    → All IsLimb b
    → c ≤ 1
    → let (r, last) = sub_into a b c in
      (value a + at_limb last (length a) ≡ value r + value b + c)
      × All IsLimb r
      × (length r ≡ length a)
      × (last ≤ 1)
unfolding sub_into
sub_into-value [] [] c e ha hb hc = (omega arith, tt, refl, hc)
sub_into-value [] (y ∷ b) c e ha hb hc = absurd (omega arith)
sub_into-value (x ∷ a) [] c e ha hb hc = absurd (omega arith)
sub_into-value (x ∷ a) (y ∷ b) c e ha hb hc =
    let one = sub_limb-IsDifference x y c ha.0 hb.0 hc in
    let (total, limbs, sized, last) =
      sub_into-value a b (sub_limb x y c).1 (omega arith) ha.1 hb.1 one.borrow in
    (omega (arith, one.total, total), (one.limb, limbs), omega (arith, sized), last)
