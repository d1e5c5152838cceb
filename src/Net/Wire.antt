-- ===== src/Net/Wire.antt =====
-- kernel/src/net/mod.rs: the link that the protocols share: the id of the next datagram, the timer, the
-- adapter (its address, and which frames it takes) and the frames handed to it, the last one first.
pub mod Link
use barry_os.Common.{
  ℕ, Bool, Option, false, List, if◌then◌else◌, [], some, ◌+◌, ◌&&◌, ◌%◌, ◌∷◌, not, true, ltb, none,
  length, ◌==◌, ◌++◌, ◌-◌, ◌^◌,
}
use barry_os.Net.Arp.{Ip, lookup, u32_to_ip}
use barry_os.Net.Ipv4.{Ipv4, send, send_broadcast, next_hop, sum_words, octets, fold_carry}
use barry_os.Net.Ipv4
use barry_os.Common.Words.{u16_mod, add32}

pub record Wire : Type 0 where
  pub ip : Ipv4
  pub our_mac : Option (List ℕ)
  pub accepts : List ℕ → Bool
  pub ident : ℕ
  pub now : ℕ
  pub frames : List (List ℕ)

abbrev pub boot : Option (List ℕ) → (List ℕ → Bool) → Wire
boot our_mac accepts = record {
  ip = Ipv4.boot;
  our_mac = our_mac;
  accepts = accepts;
  ident = 0x0B05;
  now = 0;
  frames = [];
}

abbrev pub is_some {ℓ} : {A : Type ℓ} → Option A → Bool
is_some none = false
is_some (some a) = true

abbrev pub handed : Option (List ℕ) → List (List ℕ) → List (List ℕ)
handed none frames = frames
handed (some frame) frames = frame ∷ frames

-- `ip_id`, which is taken when a header is built.
abbrev pub next_ident : Bool → ℕ → ℕ
next_ident built ident = if built then (ident + 1) % u16_mod else ident

-- A datagram goes to the layer below.
unfoldable pub ip_send : Wire → Ip → ℕ → List ℕ → Bool × Wire
ip_send w dst proto payload =
    let built =
      is_some w.our_mac
      && not (ltb 1500 (20 + length payload))
      && is_some (lookup w.ip.arp (next_hop w.ip dst)) in
    let (ok, ip, frame) = send w.ip w.our_mac w.accepts w.ident dst proto payload in
    (ok, record w { ip = ip; ident = next_ident built w.ident; frames = handed frame w.frames })

unfoldable pub ip_send_broadcast : Wire → Ip → Ip → ℕ → List ℕ → Bool × Wire
ip_send_broadcast w src dst proto payload =
    let built = is_some w.our_mac && not (ltb 1500 (20 + length payload)) in
    let (ok, ip, frame) = send_broadcast w.ip w.our_mac w.accepts w.ident src dst proto payload in
    (ok, record w { ip = ip; ident = next_ident built w.ident; frames = handed frame w.frames })

unfoldable pub our_ip : Wire → Ip
our_ip w = u32_to_ip w.ip.arp.our_ip

-- The checksum of UDP and TCP: the addresses, the protocol and the length come first.
unfoldable pub pseudo_checksum : ℕ → Ip → Ip → List ℕ → ℕ
pseudo_checksum proto src dst bytes =
    let addresses = sum_words (octets src ++ octets dst) 0 in
    let first = add32 (add32 addresses proto) (length bytes) in
    0xFFFF - fold_carry 2 (sum_words bytes first) % 2 ^ 16

-- A checksum of zero goes out as all ones.
abbrev pub sealed : ℕ → ℕ
sealed ck = if ck == 0 then 0xFFFF else ck
