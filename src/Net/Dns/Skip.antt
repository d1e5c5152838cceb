-- ===== src/Net/Dns/Skip.antt =====
-- kernel/src/net/dns.rs: `skip_name` ends, and stays in the message.
use barry_os.Common.{
  ◌<◌, ◌≤◌, some, arith, ◌+◌, ◌≡◌, if-cases, leb, zero, ◌/◌, ◌==◌, ltb, ltb→lt, leb→gt, le→leb, ap,
  if◌then◌else◌, refl,
}
use barry_os.Net.Dns.{skip_from, skip_name, List, ℕ, suc, length, Option, none, get_or}

-- An offset past a name, which lies in the message.
pub data IsPast (msg : List ℕ) (at : ℕ) : Option ℕ → Type 0 where
  broken : IsPast msg at none
  past : (next : ℕ) → at < next → next ≤ length msg → IsPast msg at (some next)

IsPast-mono :
    {msg : List ℕ} {o : Option ℕ} (at at' : ℕ) → at ≤ at' → IsPast msg at' o → IsPast msg at o
IsPast-mono at at' h broken = broken
IsPast-mono at at' h (past next lo hi) = past next (omega arith) hi

skip_from-IsPast : (msg : List ℕ) (fuel at : ℕ) → IsPast msg at (skip_from msg fuel at)
unfolding skip_from
skip_from-IsPast msg zero at = broken
skip_from-IsPast msg (suc fuel) at =
    let len = get_or msg at 0 in
    let ih = skip_from-IsPast msg fuel (at + 1 + len) in
    if-cases (IsPast msg at) (leb (length msg) at) _ _ (λ h. broken)
      λ h.
        if-cases (IsPast msg at) (len / 64 == 3) _ _
          (λ c.
            if-cases (IsPast msg at) (ltb (at + 1) (length msg)) _ _
              (λ l. past (at + 2) (omega arith) (omega (arith, ltb→lt (at + 1) (length msg) l)))
              (λ l. broken))
          λ c.
            if-cases (IsPast msg at) (len == 0) _ _
              (λ z. past (at + 1) (omega arith) (omega (arith, leb→gt (length msg) at h)))
              λ z. IsPast-mono at (at + 1 + len) (omega arith) ih

-- Fuel for the bytes that are left is enough: each label takes at least one.
skip_from_fuel :
    (msg : List ℕ) (f g at : ℕ)
    → length msg < f + at
    → length msg < g + at
    → skip_from msg f at ≡ skip_from msg g at
unfolding skip_from
skip_from_fuel msg zero zero at h k = refl
skip_from_fuel msg zero (suc g) at h k = rw (le→leb (length msg) at (omega arith)) refl
skip_from_fuel msg (suc f) zero at h k = rw (le→leb (length msg) at (omega arith)) refl
skip_from_fuel msg (suc f) (suc g) at h k =
    let len = get_or msg at 0 in
    ap
      (λ rest.
        if leb (length msg) at
        then none
        else if len / 64 == 3
        then (if ltb (at + 1) (length msg) then some (at + 2) else none)
        else if len == 0
        then some (at + 1)
        else rest)
      (skip_from_fuel msg f g (at + 1 + len) (omega arith) (omega arith))

-- The walk over a name ends: more fuel than the message has bytes gives the same result. It finds either
-- no end, or an offset behind the start that is still in the message.
pub skip_name_lem :
    (msg : List ℕ) (at more : ℕ)
    → IsPast msg at (skip_name msg at)
      × (skip_from msg (length msg + 1 + more) at ≡ skip_name msg at)
unfolding skip_name
skip_name_lem msg at more = (
  skip_from-IsPast msg (length msg + 1) at,
  skip_from_fuel msg (length msg + 1 + more) (length msg + 1) at (omega arith) (omega arith),
)
