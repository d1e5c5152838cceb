-- ===== src/Fs/Perm/Hex.antt =====
-- The hexadecimal text of a hash and back.
use barry_os.Common.{
  ℕ, All, ◌<◌, ◌≡◌, length, some, ◌∷◌, dec_lt, ◌/◌, arith, ◌*◌, ◌+◌, ◌%◌, ap, [], refl, ◌∙◌,
}
use Prim.Native.Nat.{suc}
use barry_os.Fs.Perm.{hex_digit, hex_val, to_hex, from_hex, join_hex, List}

hex_val-hex_digit : (n : ℕ) → n < 16 → hex_val (hex_digit n) ≡ some n
unfolding hex_val
hex_val-hex_digit n h = elim (dec_lt n 10) [ yes low ↦ ground arith | no high ↦ ground arith ]

from_hex_step :
    (h l room b : ℕ) (cs : List ℕ)
    → join_hex (hex_val h) (hex_val l) ≡ some b
    → from_hex (h ∷ l ∷ cs) (suc room) ≡ b ∷ from_hex cs room
unfolding from_hex
from_hex_step h l room b cs e = rw (e, from_hex) refl

joined :
    (b : ℕ)
    → b < 256
    → join_hex (hex_val (hex_digit (b / 16))) (hex_val (hex_digit (b % 16))) ≡ some b
joined b h =
    let value : b / 16 * 16 + b % 16 ≡ b = omega arith in
    rw (hex_val-hex_digit (b / 16) (omega arith), hex_val-hex_digit (b % 16) (omega arith))
      (ap some value)

-- The bytes of a hash, printed as hexadecimal digits, are read back from the text.
pub from_hex-to_hex : (bs : List ℕ) → All (λ b. b < 256) bs → from_hex (to_hex bs) (length bs) ≡ bs
unfolding from_hex to_hex
from_hex-to_hex [] h = refl
from_hex-to_hex (b ∷ bs) h =
    from_hex_step (hex_digit (b / 16)) (hex_digit (b % 16)) (length bs) b (to_hex bs) (joined b h.0)
    ∙ ap (◌∷◌ b) (from_hex-to_hex bs h.1)
