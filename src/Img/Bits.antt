-- ===== src/Img/Bits.antt =====
-- kernel/src/apps/web/img/inflate.rs: the reader of bits, lowest bit first.
use barry_os.Img.Outcome.{◌>>=◌, ◌>>◌}
use barry_os.Common.Words.{u32_mod}
use barry_os.Img.Outcome.{Outcome, stuck, ok, err, truncated}
use barry_os.Common.{
  ℕ, List, ◌-◌, ◌/◌, if◌then◌else◌, ltb, suc, bit_or, get_or, ◌*◌, ◌^◌, ◌%◌, ◌+◌, leb, length, zero,
  bit_and,
}
pub mod Left

pub record Bits : Type 0 where
  pub src : List ℕ
  pub at : ℕ
  pub buf : ℕ
  pub n : ℕ

unfoldable pub new : List ℕ → Bits
new src = record { src = src; at = 0; buf = 0; n = 0 }

unfoldable pub load_byte : Bits → Bits
load_byte b = record b {
  buf = bit_or b.buf (get_or b.src b.at 0 * 2 ^ b.n % u32_mod);
  at = b.at + 1;
  n = b.n + 8;
}

-- The loop that buffers bytes until `want` bits are there; each round brings eight, so `want` rounds
-- are enough.
unfoldable pub refill : ℕ → Bits → ℕ → Outcome Bits
unfolding load_byte
refill zero b want = if ltb b.n want then stuck else ok b
refill (suc fuel) b want =
    let more = refill fuel (load_byte b) want in
    if ltb b.n want then (if leb (length b.src) b.at then err truncated else more) else ok b

unfoldable pub take_bits : Bits → ℕ → Outcome (ℕ × Bits)
unfolding refill
take_bits b want = do
  r ← refill want b want
  ok (
    if leb 32 want then r.buf else bit_and r.buf (2 ^ want - 1),
    record r { buf = r.buf / 2 ^ want; n = r.n - want },
  )

unfoldable pub align : Bits → Bits
align b = record b { at = b.at - b.n / 8; buf = 0; n = 0 }

-- How many bits the reader has left, with those that it has buffered.
unfoldable pub bits_left : Bits → ℕ
bits_left b = (length b.src - b.at) * 8 + b.n
