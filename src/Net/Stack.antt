-- ===== src/Net/Stack.antt =====
-- kernel/src/net/mod.rs, and the hand-over to the protocols in ipv4.rs and udp.rs: a frame goes up to the
-- layer that owns it, and every state machine has its turn. The frames that the adapter has received are an
-- argument, and so is the turn of the HTTP client.
pub mod EndToEnd
use barry_os.Common.{
  ℕ, List, Bool, if◌then◌else◌, Option, take, ltb, some, ◌∷◌, ◌==◌, not, length, ◌&&◌, none, [],
  true,
}
use barry_os.Net.Arp.{Arp, Ip, read16, set_our_ip, boot}
use barry_os.Net.Arp
use barry_os.Net.Ipv4.{Ipv4, Delivery, proto_icmp, proto_tcp, proto_udp}
use barry_os.Net.Ipv4
use barry_os.Net.Wire.{Wire, handed}
use barry_os.Net.Udp.{Udp, Message, dns_handler, dhcp_handler}
use barry_os.Net.Udp
use barry_os.Net.Icmp.{Icmp}
use barry_os.Net.Icmp
use barry_os.Net.Tcp.Block.{Tcp}
use barry_os.Net.Tcp.Input
use barry_os.Net.Tcp.Timer
use barry_os.Net.Dns.{Dns}
use barry_os.Net.Dns
use barry_os.Net.Dhcp.{Dhcp, is_failed}
use barry_os.Net.Dhcp

abbrev pub fallback_ip : Ip
fallback_ip = record { o0 = 192; o1 = 168; o2 = 1; o3 = 100 }

pub record Stack : Type 0 where
  pub present : Bool
  pub fallback_applied : Bool
  pub wire : Wire
  pub udp : Udp
  pub icmp : Icmp
  pub tcp : Tcp
  pub dns : Dns
  pub dhcp : Dhcp

-- A datagram goes to the protocol that listens on its port.
unfoldable pub deliver_udp : Stack → Udp × Option Message → Stack
deliver_udp s (udp, none) = record s { udp = udp }
deliver_udp s (udp, some m) = elim m.handler [
  | dns_handler ↦ record s { udp = udp; dns = Dns.handle s.dns m.payload }
  | dhcp_handler ↦
      let (dhcp, dns, udp, wire) = Dhcp.handle s.dhcp s.dns udp s.wire m.payload in
      record s { udp = udp; dhcp = dhcp; dns = dns; wire = wire }
]

-- What an accepted packet carries goes to its protocol.
unfoldable pub deliver : Stack → Delivery → Stack
deliver s d =
    let (icmp, icmp_wire) = Icmp.handle s.icmp s.wire d.src d.body in
    let (tcp, tcp_wire) = Input.handle s.tcp s.wire d.src d.body in
    if d.proto == proto_icmp
    then record s { icmp = icmp; wire = icmp_wire }
    else if d.proto == proto_udp
    then deliver_udp s (Udp.handle s.udp d.src d.body)
    else if d.proto == proto_tcp
    then record s { tcp = tcp; wire = tcp_wire }
    else s

unfoldable pub on_ipv4 : Stack → Ipv4 × Option Delivery → Stack
on_ipv4 s (ip, none) = record s { wire = record s.wire { ip = ip } }
on_ipv4 s (ip, some d) = deliver (record s { wire = record s.wire { ip = ip } }) d

-- The cache after an ARP frame, and the answer that is handed over.
unfoldable pub on_arp : Stack → Arp × Option (List ℕ) → Stack
on_arp s (arp, answer) = record s {
  wire = record s.wire {
    ip = record s.wire.ip { arp = arp };
    frames = handed answer s.wire.frames;
  };
}

-- One frame, by its type.
unfoldable pub dispatch : Stack → List ℕ → Stack
dispatch s frame =
    if ltb (length frame) 14
    then s
    else if read16 frame 12 == 0x0806
    then on_arp s (Arp.handle_frame s.wire.ip.arp s.wire.our_mac frame)
    else if read16 frame 12 == 0x0800
    then on_ipv4 s (Ipv4.handle_frame s.wire.ip frame)
    else s

-- The address that is taken when no server has answered.
unfoldable pub fall_back : Stack → Stack
fall_back s =
    if not s.fallback_applied && is_failed s.dhcp.state
    then record s {
      fallback_applied = true;
      wire = record s.wire { ip = record s.wire.ip { arp = set_our_ip s.wire.ip.arp fallback_ip } };
    }
    else s

unfoldable pub dhcp_turn : Stack → Stack
dhcp_turn s =
    let (dhcp, udp, wire) = Dhcp.tick s.dhcp s.udp s.wire in
    record s { dhcp = dhcp; udp = udp; wire = wire }

unfoldable pub dns_turn : Stack → Stack
dns_turn s =
    let (dns, udp, wire) = Dns.tick s.dns s.udp s.wire in
    record s { dns = dns; udp = udp; wire = wire }

unfoldable pub tcp_turn : Stack → Stack
tcp_turn s = let (tcp, wire) = Timer.tick s.tcp s.wire in record s { tcp = tcp; wire = wire }

unfoldable pub tick : (Stack → Stack) → Stack → Stack
tick http_turn s =
    if not s.present then s else fall_back (http_turn (tcp_turn (dns_turn (dhcp_turn s))))

unfoldable pub dispatch_all : Stack → List (List ℕ) → Stack
dispatch_all s [] = s
dispatch_all s (frame ∷ frames) = dispatch_all (dispatch s frame) frames

abbrev pub rx_desc : ℕ
rx_desc = 8

-- One pass over the ring of received frames, then the timers.
unfoldable pub poll : (Stack → Stack) → Stack → List (List ℕ) → Stack
poll http_turn s frames =
    tick http_turn (if s.present then dispatch_all s (take rx_desc frames) else s)
