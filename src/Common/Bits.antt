-- ===== src/Common/Bits.antt =====
-- Bits of a byte: the masks of the kernel's bitmaps, checked over all bytes by evaluation.
use Prim.Native.Nat.{ℕ, zero, suc, ◌-◌, ◌/◌, ◌%◌, ◌^◌, ◌<◌, bit_and, bit_or}
use mathlib.Core.Path.{◌≡◌, refl}
use mathlib.Core.Bool.{Bool, true, false, not, ◌&&◌}
use native.Mathlib.Omega.{arith}
use native.Mathlib.Decide.{ℕ_discrete}
use barry_os.Common.Tests.{ltb, ◌==◌, ltb→lt, if◌then◌else◌}

pub and_left : (a b : Bool) → (a && b) ≡ true → a ≡ true
and_left a b h = ground arith

pub and_right : (a b : Bool) → (a && b) ≡ true → b ≡ true
and_right a b h = ground arith

-- Whether a test passes at each number under a bound.
unfoldable pub passes_under : (ℕ → Bool) → ℕ → Bool
passes_under test zero = true
passes_under test (suc bound) = passes_under test bound && test bound

pub passes_under-lt :
    (test : ℕ → Bool) (bound at : ℕ) → at < bound → passes_under test bound ≡ true → test at ≡ true
unfolding passes_under
passes_under-lt test zero at lt ok = absurd (omega arith)
passes_under-lt test (suc bound) at lt ok = elim (ℕ_discrete at bound) [
  | yes last ↦ rw (last) (and_right (passes_under test bound) (test bound) ok)
  | no before ↦
      passes_under-lt test bound at (omega arith)
        (and_left (passes_under test bound) (test bound) ok)
]

-- `(b >> k) & 1 == 1`
abbrev pub bit_of : ℕ → ℕ → Bool
bit_of b k = (b / 2 ^ k) % 2 == 1

-- equality of truth values
abbrev pub same : Bool → Bool → Bool
same true b = b
same false b = not b

pub same→eq : (a b : Bool) → same a b ≡ true → a ≡ b
same→eq a b h = ground arith

or_check : ℕ → ℕ → ℕ → Bool
or_check b k m =
    ltb (bit_or b (2 ^ k)) 256
    && same (bit_of (bit_or b (2 ^ k)) m) (if k == m then true else bit_of b m)

clear_check : ℕ → ℕ → ℕ → Bool
clear_check b k m =
    ltb (bit_and b (255 - 2 ^ k)) 256
    && same (bit_of (bit_and b (255 - 2 ^ k)) m) (if k == m then false else bit_of b m)

or_table : passes_under (λ b. passes_under (λ k. passes_under (or_check b k) 8) 8) 256 ≡ true
unfolding passes_under or_check
or_table = refl

clear_table : passes_under (λ b. passes_under (λ k. passes_under (clear_check b k) 8) 8) 256 ≡ true
unfolding passes_under clear_check
clear_table = refl

module _ (b k m : ℕ) (hb : b < 256) (hk : k < 8) (hm : m < 8) where
  or_checked : or_check b k m ≡ true
  or_checked =
      passes_under-lt _ 8 m hm (passes_under-lt _ 8 k hk (passes_under-lt _ 256 b hb or_table))

  clear_checked : clear_check b k m ≡ true
  clear_checked =
      passes_under-lt _ 8 m hm (passes_under-lt _ 8 k hk (passes_under-lt _ 256 b hb clear_table))

  -- `b | (1 << k)` sets bit `k` and no other.
  pub bit_of-or : bit_of (bit_or b (2 ^ k)) m ≡ (if k == m then true else bit_of b m)
  unfolding or_check
  bit_of-or = same→eq _ _ (and_right _ _ or_checked)

  -- `b & !(1 << k)` clears bit `k` and no other.
  pub bit_of-clear : bit_of (bit_and b (255 - 2 ^ k)) m ≡ (if k == m then false else bit_of b m)
  unfolding clear_check
  bit_of-clear = same→eq _ _ (and_right _ _ clear_checked)

-- Both stay bytes.
pub bit_or-byte : (b k : ℕ) → b < 256 → k < 8 → bit_or b (2 ^ k) < 256
unfolding or_check
bit_or-byte b k hb hk = ltb→lt _ _ (and_left _ _ (or_checked b k 0 hb hk (omega arith)))

pub bit_and-byte : (b k : ℕ) → b < 256 → k < 8 → bit_and b (255 - 2 ^ k) < 256
unfolding clear_check
bit_and-byte b k hb hk = ltb→lt _ _ (and_left _ _ (clear_checked b k 0 hb hk (omega arith)))
