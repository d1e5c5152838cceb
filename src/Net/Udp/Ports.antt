-- ===== src/Net/Udp/Ports.antt =====
-- kernel/src/net/udp.rs: the ports that are handed out.
use barry_os.Common.{
  ◌≡◌, ◌≤◌, ◌<◌, ◌+◌, ◌≢◌, arith, eq→==, if-cases, if◌then◌else◌, leb, ne→==, ◌==◌, leb→le, ◌%◌,
  leb→gt,
}
use barry_os.Net.Udp.{Udp, ephemeral_base, ephemeral_span, alloc_port, ℕ, u32_mod}

-- The counter has not been seeded, or stands in the range.
pub data IsCounter (n : ℕ) : Type 0 where
  unseeded : n ≡ 0 → IsCounter n
  seeded : ephemeral_base ≤ n → n < ephemeral_base + ephemeral_span → IsCounter n

-- The port that the counter gives, before it is counted on.
abbrev pub port_of : ℕ → ℕ → ℕ
port_of n tsc = if n == 0 then ephemeral_base + tsc % u32_mod % ephemeral_span else n

port_of_range :
    (n tsc : ℕ)
    → IsCounter n
    → (ephemeral_base ≤ port_of n tsc) × (port_of n tsc < ephemeral_base + ephemeral_span)
port_of_range n tsc (unseeded e) = rw (eq→== n 0 e) ((omega arith, omega arith))
port_of_range n tsc (seeded lo hi) = rw (ne→== n 0 (λ e. absurd (omega (arith, e)))) ((lo, hi))

-- The counter after a port.
abbrev pub after : ℕ → ℕ
after p = if leb (ephemeral_base + ephemeral_span) (p + 1) then ephemeral_base else p + 1

after_range :
    (p : ℕ)
    → ephemeral_base ≤ p
    → p < ephemeral_base + ephemeral_span
    → (ephemeral_base ≤ after p) × (after p < ephemeral_base + ephemeral_span) × (after p ≢ p)
after_range p lo hi =
    if-cases (λ n. (ephemeral_base ≤ n) × (n < ephemeral_base + ephemeral_span) × (n ≢ p))
      (leb (ephemeral_base + ephemeral_span) (p + 1)) _ _
      (λ h. (omega arith, omega arith, λ e. absurd (omega (arith, e, leb→le _ _ h))))
      λ h. (omega arith, omega (arith, leb→gt _ _ h), λ e. absurd (omega (arith, e)))

-- Whatever the cycle counter says, a port lies in the ephemeral range, the counter stays in it, and the
-- next port is another one.
pub alloc_port_lem :
    (u : Udp) (tsc tsc' : ℕ)
    → IsCounter u.next_port
    → let (p, u') = alloc_port u tsc in
      (ephemeral_base ≤ p)
      × (p < ephemeral_base + ephemeral_span)
      × IsCounter u'.next_port
      × ((alloc_port u' tsc').0 ≢ p)
unfolding alloc_port
alloc_port_lem u tsc tsc' h =
    let p = port_of u.next_port tsc in
    let (lo, hi) = port_of_range u.next_port tsc h in
    let (lo', hi', ne) = after_range p lo hi in
    (
      omega (arith, lo, hi),
      omega (arith, lo, hi),
      seeded lo' hi',
      rw (ne→== (after p) 0 (λ e. absurd (omega (arith, e, lo'))))
          (λ e. ne (omega (arith, e, lo, hi, lo', hi'))),
    )
