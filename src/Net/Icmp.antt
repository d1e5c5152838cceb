-- ===== src/Net/Icmp.antt =====
-- kernel/src/net/icmp.rs: the echo request that waits, and what is done with a message.
pub mod Echo
use barry_os.Common.{
  ℕ, List, Bool, Option, false, [], min, take, ◌-◌, if◌then◌else◌, ◌++◌, ◌&&◌, ◌∷◌, ltb, set, suc,
  not, ◌*◌, some, length, ◌%◌, ◌==◌, ◌/◌, true, none, ◌+◌, get_or, zero,
}
use barry_os.Common.Words.{u16_mod, u32_mod, u64_mod, add64}
use barry_os.Net.Arp.{Ip, ip_to_u32, u32_to_ip, be16, read16}
use barry_os.Net.Ipv4.{proto_icmp, checksum}
use barry_os.Net.Wire.{Wire, ip_send}

abbrev pub type_echo_reply : ℕ
type_echo_reply = 0

abbrev pub type_echo_request : ℕ
type_echo_request = 8

abbrev pub our_id : ℕ
our_id = 0x0B05

pub record Icmp : Type 0 where
  pub pending : Bool
  pub pending_seq : ℕ
  pub pending_target : ℕ
  pub pending_since : ℕ
  pub reply_seen : Bool
  pub reply_rtt_ms : ℕ
  pub reply_from : ℕ
  pub requests_sent : ℕ
  pub replies_received : ℕ

abbrev pub boot : Icmp
boot = record {
  pending = false;
  pending_seq = 0;
  pending_target = 0;
  pending_since = 0;
  reply_seen = false;
  reply_rtt_ms = 0;
  reply_from = 0;
  requests_sent = 0;
  replies_received = 0;
}

-- The letters from the `i`-th on.
unfoldable pub letters : ℕ → ℕ → List ℕ
letters zero i = []
letters (suc n) i = (b'a' + i % 26) ∷ letters n (i + 1)

-- A message, with its checksum field.
abbrev pub message : ℕ → ℕ → List ℕ → List ℕ
message type ck rest = type ∷ 0 ∷ (be16 ck ++ rest)

abbrev pub echo_body : ℕ → List ℕ
echo_body seq = be16 our_id ++ be16 seq ++ letters 32 0

unfoldable pub echo_request : ℕ → List ℕ
echo_request seq =
    message type_echo_request (checksum (message type_echo_request 0 (echo_body seq)))
      (echo_body seq)

unfoldable pub request : Icmp → Wire → Ip → ℕ → Bool × Icmp × Wire
request s w dst seq =
    let (ok, w') = ip_send w dst proto_icmp (echo_request seq) in
    if not ok then (false, s, w') else (
      true,
      record s {
        pending = true;
        pending_seq = seq;
        pending_target = ip_to_u32 dst;
        pending_since = w'.now;
        reply_seen = false;
        requests_sent = add64 s.requests_sent 1;
      },
      w',
    )

unfoldable pub ticks_to_ms : ℕ → ℕ
ticks_to_ms ticks = min (ticks * 10 % u64_mod) (u32_mod - 1)

unfoldable pub pending_age_ms : Icmp → Wire → ℕ
pending_age_ms s w = ticks_to_ms (w.now - s.pending_since)

unfoldable pub take_reply : Icmp → Option (Ip × ℕ) × Icmp
take_reply s =
    if s.reply_seen
    then (some (u32_to_ip s.reply_from, s.reply_rtt_ms), record s { reply_seen = false })
    else (none, s)

-- A reply that carries our identifier.
unfoldable pub on_reply : Icmp → Wire → Ip → ℕ → Icmp
on_reply s w src seq = record s {
  replies_received = add64 s.replies_received 1;
  pending = s.pending && not (s.pending_seq == seq);
  reply_from = ip_to_u32 src;
  reply_rtt_ms = ticks_to_ms (w.now - s.pending_since);
  reply_seen = true;
}

-- The answer to a request: the same message, of at most 1500 bytes, as a reply.
unfoldable pub echo_reply : List ℕ → List ℕ
echo_reply body =
    let copy = take 1500 body in
    let blank = set (set (set copy 0 type_echo_reply) 2 0) 3 0 in
    let ck = checksum blank in set (set blank 2 (ck / 256)) 3 (ck % 256)

unfoldable pub handle : Icmp → Wire → Ip → List ℕ → Icmp × Wire
handle s w src body =
    if ltb (length body) 8
    then (s, w)
    else if not (checksum body == 0)
    then (s, w)
    else if get_or body 0 0 == type_echo_reply
    then (if read16 body 4 == our_id then (on_reply s w src (read16 body 6), w) else (s, w))
    else if get_or body 0 0 == type_echo_request
    then (s, (ip_send w src proto_icmp (echo_reply body)).1)
    else (s, w)
