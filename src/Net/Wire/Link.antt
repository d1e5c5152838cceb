-- ===== src/Net/Wire/Link.antt =====
-- kernel/src/net/ipv4.rs: when a datagram goes out, and that the link stays up.
use barry_os.Common.{some, ℕ, List, Bool, length, ◌≡◌, true, ◌≤◌, ge→ltb, ◌+◌, arith, refl}
use barry_os.Net.Arp.{Ip, lookup}
use barry_os.Net.Ipv4.{send, transmit, next_hop, on_link}
use barry_os.Net.Wire.{Wire, ip_send}

-- The adapter takes every frame, and the next hop towards an address is known.
pub record IsUp (w : Wire) (dst : Ip) : Type 0 where
  pub mac : List ℕ
  pub hop_mac : List ℕ
  pub has_mac : w.our_mac ≡ some mac
  pub resolved : lookup w.ip.arp (next_hop w.ip dst) ≡ some hop_mac
  pub takes : (frame : List ℕ) → w.accepts frame ≡ true

-- What sending does on a link that is up.
pub record IsSent (w : Wire) (dst : Ip) (out : Bool × Wire) : Type 0 where
  pub ok : out.0 ≡ true
  pub up : IsUp out.1 dst
  pub same_time : out.1.now ≡ w.now
  pub one_frame : length out.1.frames ≡ length w.frames + 1

pub ip_send-IsSent :
    (w : Wire) (dst : Ip) (proto : ℕ) (payload : List ℕ)
    → IsUp w dst
    → length payload ≤ 1480
    → IsSent w dst (ip_send w dst proto payload)
unfolding ip_send send transmit next_hop on_link
ip_send-IsSent w dst proto payload up short =
    rw (up.has_mac, up.resolved, ge→ltb 1500 (20 + length payload) (omega arith), up.takes)
      (record {
        ok = refl;
        up = record {
          mac = up.mac;
          hop_mac = up.hop_mac;
          has_mac = refl;
          resolved = up.resolved;
          takes = up.takes;
        };
        same_time = refl;
        one_frame = omega arith;
      })
