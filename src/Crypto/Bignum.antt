-- ===== src/Crypto/Bignum.antt =====
-- kernel/src/crypto/bignum.rs: the arithmetic of limbs of 64 bits, the lowest one first, on as many limbs as
-- a routine is told to use.
pub mod Values
pub mod Compare
pub mod Modular
use barry_os.Common.{
  ℕ, List, Bool, ◌∷◌, suc, if◌then◌else◌, ◌+◌, not, get_or, true, [], ◌%◌, ◌-◌, leb, false, ltb,
  ◌==◌, ◌||◌, length, zero,
}
use Prim.Native.Nat.{Ordering, compare}
use barry_os.Common.Words.{u64_mod}

abbrev pub limb_mod : ℕ
limb_mod = u64_mod

-- The loop of `cmp` from the highest limb down: whether the first number is less, and whether it is equal.
unfoldable pub cmp : List ℕ → List ℕ → ℕ → Ordering
cmp a b zero = Ordering.eq
cmp a b (suc n) =
    let rest = cmp a b n in
    if get_or a n 0 == get_or b n 0 then rest else compare (get_or a n 0) (get_or b n 0)

-- One limb of a difference, and the borrow.
unfoldable pub sub_limb : ℕ → ℕ → ℕ → ℕ × ℕ
sub_limb x y borrow =
    let v = (x + u64_mod - y) % u64_mod in
    ((v + u64_mod - borrow) % u64_mod, if ltb x y || ltb v borrow then 1 else 0)

unfoldable pub sub_into : List ℕ → List ℕ → ℕ → List ℕ × ℕ
sub_into [] b borrow = ([], borrow)
sub_into (x ∷ a) [] borrow = ([], borrow)
sub_into (x ∷ a) (y ∷ b) borrow =
    let (v, out) = sub_limb x y borrow in let (r, last) = sub_into a b out in (v ∷ r, last)

-- One limb of a sum, and the carry.
unfoldable pub add_limb : ℕ → ℕ → ℕ → ℕ × ℕ
add_limb x y carry =
    let v = (x + y) % u64_mod in
    ((v + carry) % u64_mod, if leb u64_mod (x + y) || leb u64_mod (v + carry) then 1 else 0)

unfoldable pub add_into : List ℕ → List ℕ → ℕ → List ℕ × ℕ
add_into [] b carry = ([], carry)
add_into (x ∷ a) [] carry = ([], carry)
add_into (x ∷ a) (y ∷ b) carry =
    let (v, out) = add_limb x y carry in let (r, last) = add_into a b out in (v ∷ r, last)

abbrev pub is_less : Ordering → Bool
is_less Ordering.lt = true
is_less _ = false

-- The sum, and the modulus taken off when it is not below it.
unfoldable pub add_mod : List ℕ → List ℕ → List ℕ → List ℕ
add_mod a b m =
    let (r, carry) = add_into a b 0 in
    if not (carry == 0) || not (is_less (cmp r m (length m))) then (sub_into r m 0).0 else r
