-- ===== src/Net/Stack/EndToEnd.antt =====
-- kernel/src/net: what one machine sends reaches the protocol of another one.
use barry_os.Common.{◌≤◌, length, ◌≡◌, ge→ltb, ◌<◌, refl, arith, ◌∙◌, ap}
use barry_os.Net.Arp.{Ip, read16, ip_to_u32}
use barry_os.Net.Arp.Address.{IsIp}
use barry_os.Common.Words.{add64}
use barry_os.Net.Ipv4
use barry_os.Net.Ipv4.{datagram}
use barry_os.Net.Ipv4.Receive.{handle_frame-datagram, datagram_type}
use barry_os.Net.Stack.{Stack, dispatch, deliver, on_ipv4, List, ℕ}

-- An Ethernet frame of type IPv4 goes to the IPv4 layer.
dispatch-ipv4 :
    (s : Stack) (frame : List ℕ)
    → 14 ≤ length frame
    → read16 frame 12 ≡ 0x0800
    → dispatch s frame ≡ on_ipv4 s (Ipv4.handle_frame s.wire.ip frame)
unfolding dispatch
dispatch-ipv4 s frame h e = rw (ge→ltb (length frame) 14 h, e) refl

-- The machine has accepted one more packet.
abbrev pub counted : Stack → Stack
counted s = record s {
  wire = record s.wire { ip = record s.wire.ip { received = add64 s.wire.ip.received 1 } };
}

-- A frame with a datagram of at most 1480 bytes that one machine sends, with proper addresses,
-- protocol and id, is accepted by the machine that has the destination's address: it reaches the
-- protocol that the sender named, with the sender's address and the payload unchanged.
pub dispatch-datagram :
    (s : Stack) (hop_mac our_mac : List ℕ) (src dst : Ip) (proto ident : ℕ) (payload : List ℕ)
    → length hop_mac ≡ 6
    → length our_mac ≡ 6
    → IsIp src
    → IsIp dst
    → proto < 256
    → ident < 65536
    → length payload ≤ 1480
    → s.wire.ip.arp.our_ip ≡ ip_to_u32 dst
    → dispatch s (datagram hop_mac our_mac src dst proto ident payload)
      ≡ deliver (counted s) (record { src = src; proto = proto; body = payload })
unfolding on_ipv4
dispatch-datagram s hop_mac our_mac src dst proto ident payload m0 m1 a b p i short mine =
    let frame = datagram hop_mac our_mac src dst proto ident payload in
    let (size, typed) = datagram_type hop_mac our_mac src dst proto ident payload m0 m1 in
    dispatch-ipv4 s frame (omega (arith, size)) typed
    ∙ ap (on_ipv4 s) (
        handle_frame-datagram s.wire.ip hop_mac our_mac src dst proto ident payload m0 m1 a b p i
          short mine)
