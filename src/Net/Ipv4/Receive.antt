-- ===== src/Net/Ipv4/Receive.antt =====
-- kernel/src/net/ipv4.rs: what one machine sends, another one accepts.
use barry_os.Common.{
  ◌≤◌, length, ◌≡◌, get_or, drop, ◌<◌, ge→ltb, take, ◌/◌, some, arith, ◌*◌, ◌∷◌, ◌-◌, ◌++◌, ◌+◌, [],
  eq→==, ◌%◌, refl, length-append, get_or-append, ◌∙◌, drop-append, ap₂, ap, sym, take_all,
}
use barry_os.Common.Words.{add64}
use barry_os.Net.Arp.{Ip, be16, read16, ip_to_u32, u32_to_ip}
use barry_os.Net.Arp.Address.{IsIp, u32_to_ip-ip_to_u32}
use barry_os.Net.Ipv4.{
  Ipv4, accept, handle_frame, datagram, header, ethertype_ipv4, octets, checksum, read_ip, List, ℕ,
}
use barry_os.Net.Ipv4.Sums.{checksum-checksum}

-- A frame with a well-formed header of twenty bytes is judged by `accept`.
handle_frame-accept :
    (s : Ipv4) (frame : List ℕ)
    → 34 ≤ length frame
    → read16 frame 12 ≡ ethertype_ipv4
    → get_or (drop 14 frame) 0 0 ≡ 0x45
    → 20 ≤ read16 (drop 14 frame) 2
    → read16 (drop 14 frame) 2 ≤ length (drop 14 frame)
    → handle_frame s frame ≡ accept s (drop 14 frame) 20 (read16 (drop 14 frame) 2)
unfolding handle_frame
handle_frame-accept s frame h0 h1 h2 h3 h4 =
    rw
      (
        ge→ltb _ _ h0,
        h1,
        h2,
        ge→ltb (length (drop 14 frame)) 20 (omega (arith, h3, h4)),
        ge→ltb _ _ h3,
        ge→ltb _ _ h4,
      )
      refl

-- A packet with a correct checksum, whole and addressed to this machine, is delivered.
accept-delivers :
    (s : Ipv4) (pkt : List ℕ) (total : ℕ)
    → checksum (take 20 pkt) ≡ 0
    → read16 pkt 6 ≡ 0
    → ip_to_u32 (read_ip pkt 16) ≡ ip_to_u32 (u32_to_ip s.arp.our_ip)
    → accept s pkt 20 total ≡ (
      record s { received = add64 s.received 1 },
      some (record {
        src = read_ip pkt 12;
        proto = get_or pkt 9 0;
        body = take (total - 20) (drop 20 pkt);
      }),
    )
unfolding accept
accept-delivers s pkt total h0 h1 h2 = rw (h0, h1, eq→== _ _ h2) refl

at_tail :
    (xs ys tail : List ℕ) (n k : ℕ)
    → n ≡ length xs + (length ys + k)
    → get_or (xs ++ (ys ++ tail)) n 0 ≡ get_or tail k 0
at_tail xs ys tail n k h =
    get_or-append xs (ys ++ tail) n (length ys + k) 0 h ∙ get_or-append ys tail _ k 0 refl

be16_value : (v : ℕ) → v / 256 * 256 + v % 256 ≡ v
be16_value v = omega arith

ip_to_u32_word : (ip : Ip) → IsIp ip → ip_to_u32 (u32_to_ip (ip_to_u32 ip)) ≡ ip_to_u32 ip
unfolding ip_to_u32
ip_to_u32_word ip h =
    (u32_to_ip-ip_to_u32 ip (ip_to_u32 ip) h (omega (arith, h.b0, h.b1, h.b2, h.b3))).4

header-checksum :
    (src dst : Ip) (proto total ident : ℕ)
    → IsIp src
    → IsIp dst
    → proto < 256
    → total < 65536
    → ident < 65536
    → checksum (header src dst proto total ident (checksum (header src dst proto total ident 0)))
      ≡ 0
header-checksum src dst proto total ident a b p t i =
    checksum-checksum (0x45 ∷ 0 ∷ be16 total ++ be16 ident ++ (0 ∷ 0 ∷ 64 ∷ proto ∷ []))
      (octets src ++ octets dst) tt
      (
        omega arith,
        (
          omega arith,
          (
            omega arith,
            (
              omega arith,
              (omega arith, (omega arith, (omega arith, (omega arith, (omega arith, (p, tt)))))),
            ),
          ),
        ),
      )
      (a.b0, (a.b1, (a.b2, (a.b3, (b.b0, (b.b1, (b.b2, (b.b3, tt)))))))) (omega arith)

pub datagram_type :
    (hop_mac our_mac : List ℕ) (src dst : Ip) (proto ident : ℕ) (payload : List ℕ)
    → length hop_mac ≡ 6
    → length our_mac ≡ 6
    → let frame = datagram hop_mac our_mac src dst proto ident payload in
      (34 ≤ length frame) × (read16 frame 12 ≡ ethertype_ipv4)
unfolding datagram
datagram_type hop_mac our_mac src dst proto ident payload m0 m1 =
    let ck = checksum (header src dst proto (20 + length payload) ident 0) in
    let tail = 8 ∷ 0 ∷ (header src dst proto (20 + length payload) ident ck ++ payload) in
    (
      omega (arith, length-append hop_mac (our_mac ++ tail), length-append our_mac tail),
      ap₂ (λ x y. x * 256 + y) (at_tail hop_mac our_mac tail 12 0 (omega arith))
          (at_tail hop_mac our_mac tail 13 1 (omega arith)),
    )

-- A datagram of at most 1480 bytes that one machine sends is accepted by the machine that has the
-- destination's address: the sender's address, the protocol and the payload are delivered unchanged.
pub handle_frame-datagram :
    (s : Ipv4) (hop_mac our_mac : List ℕ) (src dst : Ip) (proto ident : ℕ) (payload : List ℕ)
    → length hop_mac ≡ 6
    → length our_mac ≡ 6
    → IsIp src
    → IsIp dst
    → proto < 256
    → ident < 65536
    → length payload ≤ 1480
    → s.arp.our_ip ≡ ip_to_u32 dst
    → handle_frame s (datagram hop_mac our_mac src dst proto ident payload) ≡ (
      record s { received = add64 s.received 1 },
      some (record { src = src; proto = proto; body = payload }),
    )
unfolding datagram
handle_frame-datagram s hop_mac our_mac src dst proto ident payload m0 m1 a b p i short mine =
    let total = 20 + length payload in
    let ck = checksum (header src dst proto total ident 0) in
    let pkt = header src dst proto total ident ck ++ payload in
    let tail = 8 ∷ 0 ∷ pkt in
    let frame = hop_mac ++ (our_mac ++ tail) in
    let (size, typed) = datagram_type hop_mac our_mac src dst proto ident payload m0 m1 in
    let dropped : drop 14 frame ≡ pkt =
      drop-append hop_mac (our_mac ++ tail) 14 8 (omega arith)
      ∙ drop-append our_mac tail 8 2 (omega arith) in
    let sized : read16 pkt 2 ≡ total = be16_value total in
    handle_frame-accept s frame size typed (rw (dropped) refl) (rw (dropped) (omega (arith, sized)))
      (rw (dropped) (omega (arith, sized)))
    ∙ ap (λ q. accept s q 20 (read16 q 2)) dropped
    ∙ ap (accept s pkt 20) sized
    ∙ accept-delivers s pkt total (header-checksum src dst proto total ident a b p (omega arith) i)
        refl (sym (ap (λ w. ip_to_u32 (u32_to_ip w)) mine ∙ ip_to_u32_word dst b))
    ∙ ap
        (λ bs. (
          record s { received = add64 s.received 1 },
          some (record { src = src; proto = proto; body = bs }),
        ))
        (take_all (total - 20) payload (omega arith))
