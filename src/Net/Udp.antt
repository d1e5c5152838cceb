-- ===== src/Net/Udp.antt =====
-- kernel/src/net/udp.rs: the port counter, the table of listeners, and datagrams. A listener's function is
-- named by the protocol that registers it; a delivered datagram is part of the result.
pub mod Ports
pub mod Listeners
use barry_os.Common.{
  [], ℕ, List, Bool, ◌++◌, if◌then◌else◌, Option, some, ltb, ◌==◌, ◌||◌, none, ◌+◌, length, ◌∷◌,
  ◌%◌, take, leb, false, true, ◌-◌, drop,
}
use barry_os.Common.Words.{u16_mod, u32_mod, add64}
use barry_os.Net.Arp.{Ip, be16, read16}
use barry_os.Net.Ipv4.{proto_udp, broadcast, same_ip}
use barry_os.Net.Wire.{Wire, ip_send, ip_send_broadcast, our_ip, pseudo_checksum, sealed}

abbrev pub ephemeral_base : ℕ
ephemeral_base = 0xC000

abbrev pub ephemeral_span : ℕ
ephemeral_span = 0x3F00

abbrev pub max_listeners : ℕ
max_listeners = 6

-- The functions that are registered: `dns::handle` and `dhcp::handle`.
pub data Handler : Type 0 where
  dns_handler dhcp_handler : Handler

pub record Listener : Type 0 where
  pub port : ℕ
  pub handler : Handler

pub record Udp : Type 0 where
  pub next_port : ℕ
  pub listeners : List Listener
  pub sent : ℕ
  pub received : ℕ
  pub no_listener : ℕ

abbrev pub boot : Udp
boot = record { next_port = 0; listeners = []; sent = 0; received = 0; no_listener = 0 }

-- A port, and the counter after it; the cycle counter seeds the first one.
unfoldable pub alloc_port : Udp → ℕ → ℕ × Udp
alloc_port u tsc =
    let p =
      if u.next_port == 0 then ephemeral_base + tsc % u32_mod % ephemeral_span else u.next_port in
    let next = if leb (ephemeral_base + ephemeral_span) (p + 1) then ephemeral_base else p + 1 in
    (p % u16_mod, record u { next_port = next })

-- The first listener on the port gets the function.
unfoldable pub replace_listener : List Listener → ℕ → Handler → Option (List Listener)
replace_listener [] port h = none
replace_listener (l ∷ ls) port h =
    let rest = replace_listener ls port h in
    if l.port == port
    then some (record l { handler = h } ∷ ls)
    else elim rest [ none ↦ none | some more ↦ some (l ∷ more) ]

unfoldable pub listen : Udp → ℕ → Handler → Udp
listen u port h = elim (replace_listener u.listeners port h) [
  | some ls ↦ record u { listeners = ls }
  | none ↦
      if ltb (length u.listeners) max_listeners
      then record u { listeners = u.listeners ++ record { port = port; handler = h } ∷ [] }
      else u
]

unfoldable pub find_listener : List Listener → ℕ → Option Handler
find_listener [] port = none
find_listener (l ∷ ls) port =
    let rest = find_listener ls port in if l.port == port then some l.handler else rest

unfoldable pub checksum : Ip → Ip → List ℕ → ℕ
checksum src dst dgram = pseudo_checksum proto_udp src dst dgram

-- A datagram with a checksum.
abbrev pub datagram : ℕ → ℕ → ℕ → List ℕ → List ℕ
datagram src_port dst_port ck payload =
    be16 src_port ++ be16 dst_port ++ be16 (8 + length payload) ++ be16 ck ++ payload

-- A datagram without a next hop goes straight out on the wire.
unfoldable pub hand_over : Wire → Ip → Ip → List ℕ → Bool × Wire
hand_over w src dst dgram =
    let unset = same_ip src (record { o0 = 0; o1 = 0; o2 = 0; o3 = 0 }) in
    if unset || same_ip dst broadcast
    then ip_send_broadcast w src dst proto_udp dgram
    else ip_send w dst proto_udp dgram

unfoldable pub send_from : Udp → Wire → Ip → Ip → ℕ → ℕ → List ℕ → Bool × Udp × Wire
send_from u w src dst dst_port src_port payload =
    let ck = sealed (checksum src dst (datagram src_port dst_port 0 payload)) in
    let (ok, w') = hand_over w src dst (datagram src_port dst_port ck payload) in
    if ltb 1472 (8 + length payload)
    then (false, u, w)
    else if ok
    then (true, record u { sent = add64 u.sent 1 }, w')
    else (false, u, w')

unfoldable pub send : Udp → Wire → Ip → ℕ → ℕ → List ℕ → Bool × Udp × Wire
send u w dst dst_port src_port payload = send_from u w (our_ip w) dst dst_port src_port payload

-- What a listener is called with.
pub record Message : Type 0 where
  pub handler : Handler
  pub src : Ip
  pub src_port : ℕ
  pub payload : List ℕ

unfoldable pub handle : Udp → Ip → List ℕ → Udp × Option Message
handle u src body =
    let len = read16 body 4 in
    let counted = record u { received = add64 u.received 1 } in
    if ltb (length body) 8
    then (u, none)
    else if ltb len 8 || ltb (length body) len
    then (u, none)
    else elim (find_listener u.listeners (read16 body 2)) [
      | none ↦ (record counted { no_listener = add64 u.no_listener 1 }, none)
      | some h ↦ (
        counted,
        some (record {
          handler = h;
          src = src;
          src_port = read16 body 0;
          payload = take (len - 8) (drop 8 body);
        }),
      )
    ]
