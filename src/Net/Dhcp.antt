-- ===== src/Net/Dhcp.antt =====
-- kernel/src/net/dhcp.rs: the exchange that ends in a lease. A message is built as the bytes written so far.
pub mod Parse
pub mod OptionList
pub mod GiveUp
use barry_os.Common.{
  ℕ, bit_xor, Bool, none, List, Option, if◌then◌else◌, true, ◌%◌, ◌++◌, not, leb, replicate, suc,
  ◌∷◌, length, some, ◌==◌, ltb, ◌&&◌, ◌-◌, [], get_or, false, ◌+◌, zero,
}
use barry_os.Common.Words.{u32_mod, add32, add64}
use barry_os.Net.Arp.{Ip, ip_to_u32, u32_to_ip, be16, be32, read32, slice}
use barry_os.Net.Arp
use barry_os.Net.Ipv4.{Ipv4, broadcast, set_mask, set_gateway}
use barry_os.Net.Dhcp.Parse.{Options, options}
use barry_os.Net.Wire.{Wire}
use barry_os.Net.Udp.{Udp, listen, send_from, dhcp_handler}
use barry_os.Net.Dns.{Dns, set_server}

abbrev pub server_port : ℕ
server_port = 67

abbrev pub client_port : ℕ
client_port = 68

abbrev pub retry_ticks : ℕ
retry_ticks = 100

abbrev pub max_attempts : ℕ
max_attempts = 4

pub data State : Type 0 where
  idle discovering requesting bound failed : State

pub record Dhcp : Type 0 where
  pub state : State
  pub xid : ℕ
  pub offered_ip : ℕ
  pub server_id : ℕ
  pub last_send_tick : ℕ
  pub attempts : ℕ
  pub lease_secs : ℕ
  pub offers_seen : ℕ
  pub acks_seen : ℕ

abbrev pub boot : Dhcp
boot = record {
  state = idle;
  xid = 0;
  offered_ip = 0;
  server_id = 0;
  last_send_tick = 0;
  attempts = 0;
  lease_secs = 0;
  offers_seen = 0;
  acks_seen = 0;
}

abbrev pub is_bound : State → Bool
is_bound bound = true
is_bound _ = false

abbrev pub is_failed : State → Bool
is_failed failed = true
is_failed _ = false

abbrev pub is_discovering : State → Bool
is_discovering discovering = true
is_discovering _ = false

abbrev pub in_progress : State → Bool
in_progress discovering = true
in_progress requesting = true
in_progress _ = false

abbrev pub magic_cookie : List ℕ
magic_cookie = 99 ∷ 130 ∷ 83 ∷ 99 ∷ []

abbrev pub mac_or_zero : Option (List ℕ) → List ℕ
mac_or_zero none = replicate 6 0
mac_or_zero (some mac) = mac

-- The fixed part of a message.
unfoldable pub base_packet : ℕ → Option (List ℕ) → List ℕ
base_packet xid mac =
    (1 ∷ 1 ∷ 6 ∷ 0 ∷ [])
    ++ be32 xid
    ++ be16 0
    ++ be16 0x8000
    ++ replicate 16 0
    ++ mac_or_zero mac
    ++ replicate 202 0
    ++ magic_cookie

unfoldable pub push_option : List ℕ → ℕ → List ℕ → List ℕ
push_option buf code bytes =
    if leb 300 (length buf + 2 + length bytes) then buf else buf ++ code ∷ length bytes ∷ bytes

-- The end mark, and the rest of the 300 bytes.
unfoldable pub finish : List ℕ → List ℕ
finish buf = buf ++ 255 ∷ replicate (300 - (length buf + 1)) 0

abbrev pub param_list : List ℕ
param_list = 1 ∷ 3 ∷ 6 ∷ 51 ∷ []

unfoldable pub discover_message : Dhcp → Wire → List ℕ
discover_message d w =
    let buf = push_option (base_packet d.xid w.our_mac) 53 (1 ∷ []) in
    finish (push_option buf 55 param_list)

unfoldable pub request_message : Dhcp → Wire → List ℕ
request_message d w =
    let buf = push_option (base_packet d.xid w.our_mac) 53 (3 ∷ []) in
    let buf = push_option buf 50 (be32 d.offered_ip) in
    let buf = push_option buf 54 (be32 d.server_id) in finish (push_option buf 55 param_list)

-- A message to everybody, from no address.
unfoldable pub send_message : Dhcp → Udp → Wire → List ℕ → Dhcp × Udp × Wire
send_message d u w message =
    let (ok, u', w') =
      send_from u w (record { o0 = 0; o1 = 0; o2 = 0; o3 = 0 }) broadcast server_port client_port
        message in
    (record d { last_send_tick = w.now }, u', w')

unfoldable pub send_discover : Dhcp → Udp → Wire → Dhcp × Udp × Wire
send_discover d u w = send_message d u w (discover_message d w)

unfoldable pub send_request : Dhcp → Udp → Wire → Dhcp × Udp × Wire
send_request d u w = send_message d u w (request_message d w)

unfoldable pub init : Dhcp → Udp → Wire → Dhcp × Udp
init d u w = (
  record d { state = idle; xid = bit_xor (w.now % u32_mod) 0x0B05_0B05 },
  listen u client_port dhcp_handler,
)

unfoldable pub start : Dhcp → Udp → Wire → Dhcp × Udp × Wire
start d u w =
    if is_bound d.state
    then (d, u, w)
    else send_discover (record d { attempts = 0; state = discovering }) u w

unfoldable pub tick : Dhcp → Udp → Wire → Dhcp × Udp × Wire
tick d u w =
    let n = add32 d.attempts 1 in
    let counted = record d { attempts = n } in
    if not (in_progress d.state)
    then (d, u, w)
    else if ltb (w.now - d.last_send_tick) retry_ticks
    then (d, u, w)
    else if leb max_attempts n
    then (record counted { state = failed }, u, w)
    else if is_discovering d.state
    then send_discover counted u w
    else send_request counted u w

-- A reply to us.
unfoldable pub is_ours : Dhcp → List ℕ → Bool
is_ours d payload =
    leb 240 (length payload)
    && get_or payload 0 0 == 2
    && read32 payload 4 == d.xid
    && get_or payload 236 0 == 99
    && get_or payload 237 0 == 130
    && get_or payload 238 0 == 83
    && get_or payload 239 0 == 99

abbrev pub or_else : Option Ip → ℕ → ℕ
or_else none old = old
or_else (some ip) old = ip_to_u32 ip

unfoldable pub on_offer : Dhcp → Udp → Wire → ℕ → Options → Dhcp × Udp × Wire
on_offer d u w yiaddr o =
    send_request
      (record d {
        offers_seen = add64 d.offers_seen 1;
        offered_ip = yiaddr;
        server_id = or_else o.server_id d.server_id;
        state = requesting;
        attempts = 0;
      })
      u w

-- The interface with what a lease says.
unfoldable pub configure : Wire → ℕ → Options → Wire
configure w yiaddr o =
    let ip : Ipv4 = record w.ip { arp = Arp.set_our_ip w.ip.arp (u32_to_ip yiaddr) } in
    let ip : Ipv4 = elim o.mask [ none ↦ ip | some m ↦ set_mask ip m ] in
    let ip : Ipv4 = elim o.router [ none ↦ ip | some r ↦ set_gateway ip r ] in record w { ip = ip }

unfoldable pub on_ack : Dhcp → Options → Dhcp
on_ack d o = record d {
  acks_seen = add64 d.acks_seen 1;
  lease_secs = elim o.lease [ none ↦ d.lease_secs | some l ↦ l ];
  state = bound;
}

unfoldable pub handle : Dhcp → Dns → Udp → Wire → List ℕ → Dhcp × Dns × Udp × Wire
handle d dns u w payload =
    let o = options payload in
    let yiaddr = read32 payload 16 in
    let (d', u', w') = on_offer d u w yiaddr o in
    if not (is_ours d payload)
    then (d, dns, u, w)
    else if o.msg_type == 2
    then (d', dns, u', w')
    else if o.msg_type == 5
    then (
      on_ack d o,
      elim o.dns_server [ none ↦ dns | some s ↦ set_server dns s ],
      u,
      configure w yiaddr o,
    )
    else (d, dns, u, w)
