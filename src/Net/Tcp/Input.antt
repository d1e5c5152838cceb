-- ===== src/Net/Tcp/Input.antt =====
-- kernel/src/net/tcp.rs: what a received segment does.
use barry_os.Common.{
  ℕ, Bool, true, List, if◌then◌else◌, ◌&&◌, length, ◌%◌, false, ◌==◌, suc, leb, Option, ◌/◌, ◌+◌,
  ltb, get_or, zero, ◌*◌, ◌||◌, ◌-◌, not, none, some, drop,
}
use barry_os.Common.Words.{u32_mod, add32, add64}
use barry_os.Net.Arp.{Ip, ip_to_u32, read16, read32}
use barry_os.Net.Wire.{Wire}
use barry_os.Net.Tcp.Ring.{append_rx}
use barry_os.Net.Tcp.Block.{
  Tcp, Slot, slot_at, in_flight, send_ack, closed, established, fin_sent, failed, is_open,
  is_syn_sent, is_fin_wait, is_closing,
}

-- The fields of a segment.
pub record Segment : Type 0 where
  pub seq : ℕ
  pub ack : ℕ
  pub flags : ℕ
  pub payload : List ℕ

-- A segment of this connection, whose header's length fits.
unfoldable pub parse : Tcp → Ip → List ℕ → Option Segment
parse t src body =
    let data_off = get_or body 12 0 / 16 * 4 in
    if not t.active || ltb (length body) 20
    then none
    else if not (ip_to_u32 src == t.remote_ip)
    then none
    else if not (read16 body 2 == t.local_port)
    then none
    else if not (read16 body 0 == t.remote_port)
    then none
    else if ltb data_off 20 || ltb (length body) data_off
    then none
    else some (record {
      seq = read32 body 4;
      ack = read32 body 8;
      flags = get_or body 13 0;
      payload = drop data_off body;
    })

abbrev pub has_fin : Segment → Bool
has_fin seg = seg.flags % 2 == 1

abbrev pub has_syn : Segment → Bool
has_syn seg = seg.flags / 2 % 2 == 1

abbrev pub has_rst : Segment → Bool
has_rst seg = seg.flags / 4 % 2 == 1

abbrev pub has_ack : Segment → Bool
has_ack seg = seg.flags / 16 % 2 == 1

-- The acknowledgement covers the segment in a slot, the number that a FIN takes included.
unfoldable pub covers : ℕ → Slot → Bool
covers ack s = leb (s.len + (if s.fin then 1 else 0)) ((ack + u32_mod - s.seq) % u32_mod)

-- The loop of `ack_advance`, from position `head` on.
unfoldable pub retire : Tcp → ℕ → ℕ → ℕ → ℕ
retire t ack zero head = head
retire t ack (suc k) head =
    let rest = retire t ack k (add32 head 1) in
    if head == t.tx_tail then head else if covers ack (slot_at t head) then rest else head

unfoldable pub ack_advance : Tcp → ℕ → Tcp
ack_advance t ack =
    let head = retire t ack (in_flight t) t.tx_head in
    record t {
      tx_head = head;
      snd_una = if head == t.tx_tail then t.snd_nxt else (slot_at t head).seq;
    }

unfoldable pub fin_acked : Tcp → Bool
fin_acked t = t.tx_head == t.tx_tail

-- An acknowledgement that is not behind what is already acknowledged.
abbrev pub is_new_ack : Tcp → Segment → Bool
is_new_ack t seg = has_ack seg && ltb ((seg.ack + u32_mod - t.snd_una) % u32_mod) 0x8000_0000

unfoldable pub take_ack : Tcp → Segment → Tcp
take_ack t seg = if is_new_ack t seg then record (ack_advance t seg.ack) { retries = 0 } else t

-- The payload, which is kept only when it comes next.
unfoldable pub take_payload : Tcp → Segment → Tcp
take_payload t seg =
    let (n, rx) = append_rx t.rx seg.payload in
    if length seg.payload == 0
    then t
    else if seg.seq == t.rcv_nxt
    then record t {
      rx = rx;
      rcv_nxt = add32 t.rcv_nxt (length seg.payload);
      rx_truncated = ltb n (length seg.payload) || t.rx_truncated;
    }
    else t

-- The peer's FIN, which is acknowledged.
unfoldable pub take_fin : Tcp → Wire → Tcp × Wire
take_fin t w =
    let (t', w') = send_ack (record t { peer_closed = true; rcv_nxt = add32 t.rcv_nxt 1 }) w in
    if is_closing t.state
    then (record t' { state = closed; active = false }, w')
    else (record t' { state = fin_sent }, w')

-- Our FIN may have been acknowledged.
unfoldable pub settle : Tcp → Tcp
settle t = if is_fin_wait t.state && fin_acked t then record t { state = fin_sent } else t

-- A segment on an open connection.
unfoldable pub on_open : Tcp → Wire → Segment → Tcp × Wire
on_open t w seg =
    let kept = take_payload t seg in
    let (acked, w') = send_ack kept w in
    if has_fin seg
    then take_fin kept w
    else if length seg.payload == 0
    then (settle kept, w)
    else (settle acked, w')

-- A segment while the handshake is on.
unfoldable pub on_syn_sent : Tcp → Wire → Segment → Tcp × Wire
on_syn_sent t w seg =
    let up = record t {
      rcv_nxt = add32 seg.seq 1;
      snd_una = seg.ack;
      snd_nxt = seg.ack;
      state = established;
    } in
    if has_syn seg && has_ack seg then send_ack up w else (t, w)

unfoldable pub on_segment : Tcp → Wire → Segment → Tcp × Wire
on_segment t w seg =
    if is_syn_sent t.state
    then on_syn_sent t w seg
    else if is_open t.state
    then on_open t w seg
    else (t, w)

unfoldable pub handle_segment : Tcp → Wire → Segment → Tcp × Wire
handle_segment t w seg =
    let counted = record t { segments_in = add64 t.segments_in 1 } in
    if has_rst seg
    then (record counted { state = failed }, w)
    else on_segment (take_ack counted seg) w seg

unfoldable pub handle : Tcp → Wire → Ip → List ℕ → Tcp × Wire
handle t w src body = elim (parse t src body) [ none ↦ (t, w) | some seg ↦ handle_segment t w seg ]
