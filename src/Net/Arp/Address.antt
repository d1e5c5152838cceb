-- ===== src/Net/Arp/Address.antt =====
-- Addresses as words and back, and what the cache remembers.
use barry_os.Common.{ℕ, ◌<◌, ◌≡◌, arith}
use barry_os.Net.Arp.{Ip, ip_to_u32, u32_to_ip, u32_mod}

-- The octets of an address.
pub record IsIp (ip : Ip) : Type 0 where
  pub b0 : ip.o0 < 256
  pub b1 : ip.o1 < 256
  pub b2 : ip.o2 < 256
  pub b3 : ip.o3 < 256

-- An address of four octets is read back from its word, and every 32-bit word from its address.
pub u32_to_ip-ip_to_u32 :
    (ip : Ip) (v : ℕ)
    → IsIp ip
    → v < u32_mod
    → ((u32_to_ip (ip_to_u32 ip)).o0 ≡ ip.o0)
      × ((u32_to_ip (ip_to_u32 ip)).o1 ≡ ip.o1)
      × ((u32_to_ip (ip_to_u32 ip)).o2 ≡ ip.o2)
      × ((u32_to_ip (ip_to_u32 ip)).o3 ≡ ip.o3)
      × (ip_to_u32 (u32_to_ip v) ≡ v)
unfolding ip_to_u32 u32_to_ip
u32_to_ip-ip_to_u32 ip v h lt = (
  omega (arith, h.b0, h.b1, h.b2, h.b3),
  omega (arith, h.b0, h.b1, h.b2, h.b3),
  omega (arith, h.b0, h.b1, h.b2, h.b3),
  omega (arith, h.b0, h.b1, h.b2, h.b3),
  omega arith,
)
