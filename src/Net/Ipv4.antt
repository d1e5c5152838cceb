-- ===== src/Net/Ipv4.antt =====
-- kernel/src/net/ipv4.rs: the routing decision, the checksum, the frames that `send` builds and what
-- is done with a received one. The adapter and the id of the datagram are arguments; the frame to send
-- is part of the result, and so is what goes to the protocol above.
pub mod Sums
pub mod Receive
use barry_os.Common.{
  ℕ, List, if◌then◌else◌, Bool, Option, bit_and, true, false, ◌||◌, ◌∷◌, ◌%◌, ◌-◌, ◌+◌, [], ◌==◌,
  length, some, ◌^◌, ◌*◌, ltb, ◌++◌, ◌/◌, none, get_or, replicate, drop, not, ◌&&◌, take,
}
use Prim.Native.Nat.{zero, suc}
use barry_os.Common.Words.{add32, add64}
use barry_os.Net.Arp.{Arp, Ip, ip_to_u32, u32_to_ip, be16, be32, read16}
use barry_os.Net.Arp

abbrev pub ethertype_ipv4 : ℕ
ethertype_ipv4 = 0x0800

-- The interface's state with that of the layer below.
pub record Ipv4 : Type 0 where
  pub arp : Arp
  pub mask : ℕ
  pub gateway : ℕ
  pub sent : ℕ
  pub received : ℕ
  pub bad_checksum : ℕ
  pub fragments : ℕ

abbrev pub boot : Ipv4
boot = record {
  arp = Arp.boot;
  mask = 0xFFFF_FF00;
  gateway = 0;
  sent = 0;
  received = 0;
  bad_checksum = 0;
  fragments = 0;
}

abbrev pub proto_icmp : ℕ
proto_icmp = 1

abbrev pub proto_tcp : ℕ
proto_tcp = 6

abbrev pub proto_udp : ℕ
proto_udp = 17

abbrev pub broadcast : Ip
broadcast = record { o0 = 255; o1 = 255; o2 = 255; o3 = 255 }

unfoldable pub set_mask : Ipv4 → Ip → Ipv4
set_mask s m = record s { mask = ip_to_u32 m }

unfoldable pub set_gateway : Ipv4 → Ip → Ipv4
set_gateway s g = record s { gateway = ip_to_u32 g }

unfoldable pub on_link : Ipv4 → Ip → Bool
on_link s ip = bit_and s.arp.our_ip s.mask == bit_and (ip_to_u32 ip) s.mask

unfoldable pub next_hop : Ipv4 → Ip → Ip
next_hop s ip = if on_link s ip || s.gateway == 0 then ip else u32_to_ip s.gateway

-- The sum of the big-endian words, an odd last byte padded with zero, on top of a sum.
unfoldable pub sum_words : List ℕ → ℕ → ℕ
sum_words [] sum = sum
sum_words (a ∷ []) sum = add32 sum (a * 256)
sum_words (a ∷ b ∷ rest) sum = sum_words rest (add32 sum (a * 256 + b))

-- `while sum >> 16 != 0`: two rounds bring a 32-bit sum under 16 bits.
unfoldable pub fold_carry : ℕ → ℕ → ℕ
fold_carry zero sum = sum
fold_carry (suc fuel) sum =
    let more = fold_carry fuel (sum % 2 ^ 16 + sum / 2 ^ 16) in
    if sum / 2 ^ 16 == 0 then sum else more

unfoldable pub checksum : List ℕ → ℕ
checksum bytes = 0xFFFF - fold_carry 2 (sum_words bytes 0) % 2 ^ 16

abbrev pub octets : Ip → List ℕ
octets ip = ip.o0 ∷ ip.o1 ∷ ip.o2 ∷ ip.o3 ∷ []

-- The header with a checksum.
abbrev pub header : Ip → Ip → ℕ → ℕ → ℕ → ℕ → List ℕ
header src dst proto total ident ck =
    (0x45 ∷ 0 ∷ [])
    ++ be16 total
    ++ be16 ident
    ++ be16 0
    ++ (64 ∷ proto ∷ [])
    ++ be16 ck
    ++ octets src
    ++ octets dst

unfoldable pub datagram : List ℕ → List ℕ → Ip → Ip → ℕ → ℕ → List ℕ → List ℕ
datagram hop_mac our_mac src dst proto ident payload =
    let total = 20 + length payload in
    let ck = checksum (header src dst proto total ident 0) in
    hop_mac
    ++ (our_mac ++ (be16 ethertype_ipv4 ++ (header src dst proto total ident ck ++ payload)))

-- Hands a frame over and counts it when the adapter takes it.
unfoldable pub transmit : Ipv4 → (List ℕ → Bool) → List ℕ → Bool × Ipv4 × Option (List ℕ)
transmit s send_frame frame =
    if send_frame frame
    then (true, record s { sent = add64 s.sent 1 }, some frame)
    else (false, s, some frame)

-- Whether the datagram was sent, the new state, and the frame handed over: an ARP request when the
-- next hop's address is not in the cache.
unfoldable pub send :
    Ipv4 → Option (List ℕ) → (List ℕ → Bool) → ℕ → Ip → ℕ → List ℕ → Bool × Ipv4 × Option (List ℕ)
send s none send_frame ident dst proto payload = (false, s, none)
send s (some our_mac) send_frame ident dst proto payload =
    let hop = next_hop s dst in
    let (asked, arp, frame) = Arp.request s.arp (some our_mac) send_frame hop in
    if ltb 1500 (20 + length payload) then (false, s, none) else elim (Arp.lookup s.arp hop) [
      | none ↦ (false, record s { arp = arp }, frame)
      | some hop_mac ↦
          transmit s send_frame
            (datagram hop_mac our_mac (u32_to_ip s.arp.our_ip) dst proto ident payload)
    ]

-- A datagram to everybody on the link, from an address that is given.
unfoldable pub send_broadcast :
    Ipv4
    → Option (List ℕ)
    → (List ℕ → Bool)
    → ℕ
    → Ip
    → Ip
    → ℕ
    → List ℕ
    → Bool × Ipv4 × Option (List ℕ)
send_broadcast s none send_frame ident src dst proto payload = (false, s, none)
send_broadcast s (some our_mac) send_frame ident src dst proto payload =
    if ltb 1500 (20 + length payload)
    then (false, s, none)
    else transmit s send_frame (datagram (replicate 6 0xFF) our_mac src dst proto ident payload)

-- What a received frame delivers: the sender, the protocol and the body.
pub record Delivery : Type 0 where
  pub src : Ip
  pub proto : ℕ
  pub body : List ℕ

-- The address that stands at an offset.
abbrev pub read_ip : List ℕ → ℕ → Ip
read_ip pkt i = record {
  o0 = get_or pkt i 0;
  o1 = get_or pkt (i + 1) 0;
  o2 = get_or pkt (i + 2) 0;
  o3 = get_or pkt (i + 3) 0;
}

abbrev pub same_ip : Ip → Ip → Bool
same_ip a b = a.o0 == b.o0 && a.o1 == b.o1 && a.o2 == b.o2 && a.o3 == b.o3

-- A packet whose header's form has been checked.
unfoldable pub accept : Ipv4 → List ℕ → ℕ → ℕ → Ipv4 × Option Delivery
accept s pkt ihl total =
    let dst = read_ip pkt 16 in
    let ours = ip_to_u32 dst == ip_to_u32 (u32_to_ip s.arp.our_ip) in
    if not (checksum (take ihl pkt) == 0)
    then (record s { bad_checksum = add64 s.bad_checksum 1 }, none)
    else if not (bit_and (read16 pkt 6) 0x3FFF == 0)
    then (record s { fragments = add64 s.fragments 1 }, none)
    else if not ours && not (same_ip dst broadcast)
    then (s, none)
    else (
      record s { received = add64 s.received 1 },
      some (record {
        src = read_ip pkt 12;
        proto = get_or pkt 9 0;
        body = take (total - ihl) (drop ihl pkt);
      }),
    )

-- One received frame.
unfoldable pub handle_frame : Ipv4 → List ℕ → Ipv4 × Option Delivery
handle_frame s frame =
    let pkt = drop 14 frame in
    let ihl = get_or pkt 0 0 % 16 * 4 in
    let total = read16 pkt 2 in
    if ltb (length frame) 34
    then (s, none)
    else if not (read16 frame 12 == ethertype_ipv4)
    then (s, none)
    else if not (get_or pkt 0 0 / 16 == 4) || ltb ihl 20 || ltb (length pkt) ihl
    then (s, none)
    else if ltb total ihl || ltb (length pkt) total
    then (s, none)
    else accept s pkt ihl total
