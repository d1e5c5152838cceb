-- ===== src/Net/Tcp/Block.antt =====
-- kernel/src/net/tcp.rs: the control block, the transmit queue, and the segments that go out. The array of
-- payloads is a function from its indices.
use barry_os.Common.{
  ℕ, [], Bool, true, false, List, ◌%◌, length, ◌++◌, bit_xor, if◌then◌else◌, get_or, ◌+◌, set, ◌∷◌,
  suc, ◌*◌, ◌^◌, not, ◌-◌, zero, ◌/◌, ◌==◌, ◌||◌, ltb, leb, replicate, ◌≤◌, ◌≡◌, ap, refl,
}
use barry_os.Common.Words.{u16_mod, u32_mod, add32, add64}
use barry_os.Net.Arp.{Ip, ip_to_u32, u32_to_ip, be16, be32}
use barry_os.Net.Ipv4.{proto_tcp}
use barry_os.Net.Wire.{Wire, ip_send, our_ip, pseudo_checksum, sealed}
use barry_os.Net.Tcp.Ring.{Ring, empty_ring, window, rx_release, put}

abbrev pub max_seg : ℕ
max_seg = 1460

abbrev pub tx_slots : ℕ
tx_slots = 8

pub data State : Type 0 where
  closed syn_sent established fin_wait fin_sent failed : State

pub record Slot : Type 0 where
  pub seq : ℕ
  pub len : ℕ
  pub fin : Bool

abbrev pub no_slot : Slot
no_slot = record { seq = 0; len = 0; fin = false }

pub record Tcp : Type 0 where
  pub active : Bool
  pub state : State
  pub remote_ip : ℕ
  pub remote_port : ℕ
  pub local_port : ℕ
  pub snd_una : ℕ
  pub snd_nxt : ℕ
  pub rcv_nxt : ℕ
  pub last_send : ℕ
  pub retries : ℕ
  pub iss : ℕ
  pub tx_buf : ℕ → ℕ
  pub slots : List Slot
  pub tx_head : ℕ
  pub tx_tail : ℕ
  pub rx : Ring
  pub rx_truncated : Bool
  pub peer_closed : Bool
  pub connects : ℕ
  pub segments_in : ℕ
  pub retransmits : ℕ

abbrev pub boot : Tcp
boot = record {
  active = false;
  state = closed;
  remote_ip = 0;
  remote_port = 0;
  local_port = 0;
  snd_una = 0;
  snd_nxt = 0;
  rcv_nxt = 0;
  last_send = 0;
  retries = 0;
  iss = 0;
  tx_buf = λ i. 0;
  slots = replicate tx_slots no_slot;
  tx_head = 0;
  tx_tail = 0;
  rx = empty_ring;
  rx_truncated = false;
  peer_closed = false;
  connects = 0;
  segments_in = 0;
  retransmits = 0;
}

unfoldable pub reset : Tcp → Tcp
reset t = record t {
  active = false;
  state = closed;
  rx = record t.rx { head = 0; tail = 0 };
  rx_truncated = false;
  peer_closed = false;
  tx_head = 0;
  tx_tail = 0;
  retries = 0;
}

unfoldable pub busy : Tcp → Bool
busy t = elim t.state [ syn_sent ↦ true | established ↦ true | fin_wait ↦ true | _ ↦ false ]

-- A connection on which a bare acknowledgement makes sense.
abbrev pub is_open : State → Bool
is_open established = true
is_open fin_wait = true
is_open fin_sent = true
is_open _ = false

abbrev pub is_syn_sent : State → Bool
is_syn_sent syn_sent = true
is_syn_sent _ = false

abbrev pub is_fin_wait : State → Bool
is_fin_wait fin_wait = true
is_fin_wait _ = false

-- Our FIN has gone out, or theirs has come.
abbrev pub is_closing : State → Bool
is_closing fin_wait = true
is_closing fin_sent = true
is_closing _ = false

-- A segment with a checksum.
abbrev pub segment : Tcp → ℕ → ℕ → List ℕ → ℕ → List ℕ
segment t seq flags payload ck =
    be16 (t.local_port % u16_mod)
    ++ be16 (t.remote_port % u16_mod)
    ++ be32 seq
    ++ be32 t.rcv_nxt
    ++ (0x50 ∷ flags ∷ [])
    ++ be16 (window t.rx)
    ++ be16 ck
    ++ (0 ∷ 0 ∷ [])
    ++ payload

unfoldable pub checksum : Ip → Ip → List ℕ → ℕ
checksum src dst seg = pseudo_checksum proto_tcp src dst seg

unfoldable pub emit : Tcp → Wire → ℕ → ℕ → List ℕ → Bool × Tcp × Wire
emit t w seq flags payload =
    let dst = u32_to_ip t.remote_ip in
    let ck = sealed (checksum (our_ip w) dst (segment t seq flags payload 0)) in
    let (sent, w) = ip_send w dst proto_tcp (segment t seq flags payload ck) in
    (sent, record t { last_send = w.now }, w)

unfoldable pub send_ack : Tcp → Wire → Tcp × Wire
send_ack t w =
    let (sent, t', w') = emit t w t.snd_nxt 0x10 [] in if is_open t.state then (t', w') else (t, w)

-- How many segments are on their way.
abbrev pub in_flight : Tcp → ℕ
in_flight t = (t.tx_tail + u32_mod - t.tx_head) % u32_mod

unfoldable pub queue_slot : Tcp → ℕ → ℕ → Bool → Tcp
queue_slot t seq len fin = record t {
  slots = set t.slots (t.tx_tail % tx_slots) (record { seq = seq; len = len; fin = fin });
  tx_tail = add32 t.tx_tail 1;
}

unfoldable pub slot_at : Tcp → ℕ → Slot
slot_at t i = get_or t.slots (i % tx_slots) no_slot

-- `len` bytes of an array from an index on.
unfoldable pub bytes_from : (ℕ → ℕ) → ℕ → ℕ → List ℕ
bytes_from buf at zero = []
bytes_from buf at (suc len) = buf at ∷ bytes_from buf (at + 1) len

pub length-bytes_from : (buf : ℕ → ℕ) (at len : ℕ) → length (bytes_from buf at len) ≡ len
unfolding bytes_from
length-bytes_from buf at zero = refl
length-bytes_from buf at (suc len) = ap suc (length-bytes_from buf (at + 1) len)

-- Every queued segment fits in a frame.
abbrev pub IsShort : Slot → Type 0
IsShort s = s.len ≤ max_seg

unfoldable pub payload_of : Tcp → ℕ → ℕ → List ℕ
payload_of t slot len = bytes_from t.tx_buf (slot * max_seg) len

unfoldable pub emit_slot : Tcp → Wire → ℕ → Bool × Tcp × Wire
emit_slot t w i =
    let s = slot_at t i in
    emit t w s.seq (if s.fin then 0x11 else 0x10) (payload_of t (i % tx_slots) s.len)

-- The bytes written one after the other.
unfoldable pub store : (ℕ → ℕ) → ℕ → List ℕ → ℕ → ℕ
store buf at [] = buf
store buf at (b ∷ bs) = store (put buf at b) (at + 1) bs

-- The block in which `send` has put the bytes in the queue.
unfoldable pub enqueue : Tcp → List ℕ → Tcp
enqueue t bytes = record (queue_slot t t.snd_nxt (length bytes) false) {
  snd_nxt = add32 t.snd_nxt (length bytes);
  tx_buf = store t.tx_buf (t.tx_tail % tx_slots * max_seg) bytes;
  retries = 0;
}

abbrev pub is_established : State → Bool
is_established established = true
is_established _ = false

unfoldable pub send : Tcp → Wire → List ℕ → Bool × Tcp × Wire
send t w bytes =
    if not (is_established t.state)
    then (false, t, w)
    else if length bytes == 0 || ltb max_seg (length bytes)
    then (false, t, w)
    else if leb tx_slots (in_flight t)
    then (false, t, w)
    else emit_slot (enqueue t bytes) w (t.tx_tail % tx_slots)

-- The block in which `close` has queued the FIN.
unfoldable pub enqueue_fin : Tcp → Tcp
enqueue_fin t = record (queue_slot t t.snd_nxt 0 true) {
  snd_nxt = add32 t.snd_nxt 1;
  state = fin_wait;
  retries = 0;
}

unfoldable pub close : Tcp → Wire → Tcp × Wire
close t w =
    let (sent, t', w') = emit_slot (enqueue_fin t) w (t.tx_tail % tx_slots) in
    if is_established t.state then (t', w') else (t, w)

-- `tsc.rotate_left(13) ^ ticks * 0x9E37_79B9`, on the low words of both counters.
unfoldable pub initial_seq : ℕ → ℕ → ℕ
initial_seq tsc ticks =
    let low = tsc % u32_mod in
    bit_xor (low * 2 ^ 13 % u32_mod + low / 2 ^ 19) (ticks % u32_mod * 0x9E37_79B9 % u32_mod)

-- The block of a connection that is started, with the port that UDP's counter gave.
unfoldable pub start : Tcp → Ip → ℕ → ℕ → ℕ → Tcp
start t ip port local_port iss = record (reset t) {
  remote_ip = ip_to_u32 ip;
  remote_port = port;
  local_port = local_port;
  iss = iss;
  snd_una = iss;
  snd_nxt = add32 iss 1;
  rcv_nxt = 0;
  state = syn_sent;
  active = true;
  connects = add64 t.connects 1;
}

unfoldable pub connect : Tcp → Wire → Ip → ℕ → ℕ → ℕ → Bool × Tcp × Wire
connect t w ip port local_port tsc =
    let iss = initial_seq tsc w.now in emit (start t ip port local_port iss) w iss 0x02 []

-- `rx_release`, with the announcement that the window is open again.
unfoldable pub release : Tcp → Wire → ℕ → Tcp × Wire
release t w n =
    let (announce, rx) = rx_release t.rx n in
    let freed = record t { rx = rx } in if announce then send_ack freed w else (freed, w)
