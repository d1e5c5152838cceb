-- ===== src/Net/Tcp/Ring.antt =====
-- kernel/src/net/tcp.rs: the receive buffer. The two positions are 32-bit counters that never turn back;
-- the array is a function from its indices.
use barry_os.Common.{
  ℕ, List, [], ◌+◌, ◌∷◌, Bool, min, if◌then◌else◌, ◌^◌, leb, ◌%◌, ◌==◌, suc, ◌-◌, length, false,
  take, zero,
}
use barry_os.Common.Words.{u32_mod, add32}

abbrev pub rx_cap : ℕ
rx_cap = 2 ^ 18

pub record Ring : Type 0 where
  pub buf : ℕ → ℕ
  pub head : ℕ
  pub tail : ℕ

abbrev pub empty_ring : Ring
empty_ring = record { buf = λ i. 0; head = 0; tail = 0 }

unfoldable pub rx_len : Ring → ℕ
rx_len r = (r.tail + u32_mod - r.head) % u32_mod

unfoldable pub window : Ring → ℕ
window r = min (rx_cap - rx_len r) 0xFFFF

-- The consumer is done with `n` bytes; whether the window was closed, which is then announced.
unfoldable pub rx_release : Ring → ℕ → Bool × Ring
rx_release r n =
    let total = rx_len r in
    let n = min n total in
    if n == 0 then (false, r) else (leb rx_cap total, record r { head = add32 r.head n })

-- `n` bytes from the `i`-th on, counted around the ring from a position.
unfoldable pub read_bytes : (ℕ → ℕ) → ℕ → ℕ → ℕ → List ℕ
read_bytes buf at zero i = []
read_bytes buf at (suc n) i = buf ((at + i) % rx_cap) ∷ read_bytes buf at n (i + 1)

-- What is copied into a buffer of `room` bytes.
unfoldable pub rx_read_at : Ring → ℕ → ℕ → List ℕ
rx_read_at r offset room =
    let total = rx_len r in
    if leb total offset
    then []
    else read_bytes r.buf (r.head % rx_cap + offset) (min (total - offset) room) 0

unfoldable pub rx_peek : Ring → ℕ → List ℕ
rx_peek r room = rx_read_at r 0 room

unfoldable pub put : (ℕ → ℕ) → ℕ → ℕ → ℕ → ℕ
put buf i b j = if j == i then b else buf j

-- The loop of `append_rx`, from byte `i` on.
unfoldable pub write_bytes : (ℕ → ℕ) → ℕ → ℕ → List ℕ → ℕ → ℕ
write_bytes buf tail i [] = buf
write_bytes buf tail i (b ∷ bs) = write_bytes (put buf ((tail + i) % rx_cap) b) tail (i + 1) bs

-- How many of the bytes are kept.
unfoldable pub append_rx : Ring → List ℕ → ℕ × Ring
append_rx r bytes =
    let used = rx_len r in
    let n = min (length bytes) (rx_cap - used) in
    if leb rx_cap used then (0, r) else (
      n,
      record r {
        buf = write_bytes r.buf (r.tail % rx_cap) 0 (take n bytes);
        tail = add32 r.tail n;
      },
    )
