-- ===== src/Net/Tcp/Keeps.antt =====
-- kernel/src/net/tcp.rs: which operations leave the queue and the ring as they are.
use barry_os.Common.Words.{add32}
use barry_os.Common.{
  ℕ, ◌≡◌, arith, if-cases, ◌∙◌, true, Bool, suc, [], not, length, List, ◌&&◌, ltb, refl, ◌==◌, ◌-◌,
  ◌+◌, zero, ◌≤◌, clash,
}
use barry_os.Net.Wire.{Wire}
use barry_os.Net.Tcp.Block.{
  Tcp, emit, emit_slot, send_ack, is_open, is_closing, is_fin_wait, is_syn_sent, in_flight, State,
  tx_slots, syn_sent, closed, established, fin_wait, fin_sent, failed,
}
use barry_os.Net.Tcp.Input.{
  Segment, has_fin, has_syn, has_ack, take_payload, take_fin, settle, fin_acked, on_open,
  on_syn_sent, on_segment,
}
use barry_os.Net.Tcp.Timer.{resend, send_again, count_retry, tick, retry_ticks, max_retries}

-- How many segments can be queued in a state: one more than there are slots once the connection is
-- closed, since `close` queues the FIN even when every slot is taken.
abbrev pub most_queued : State → ℕ
most_queued syn_sent = tx_slots
most_queued established = tx_slots
most_queued _ = tx_slots + 1

-- The same queue in two blocks, and no less room for it.
pub record SameQueue (t t' : Tcp) : Type 0 where
  pub room : most_queued t.state ≤ most_queued t'.state
  pub slots : t'.slots ≡ t.slots
  pub head : t'.tx_head ≡ t.tx_head
  pub tail : t'.tx_tail ≡ t.tx_tail

-- No state has more room than a closed connection.
pub closing_room : (s : State) → most_queued s ≤ tx_slots + 1
closing_room closed = omega arith
closing_room syn_sent = omega arith
closing_room established = omega arith
closing_room fin_wait = omega arith
closing_room fin_sent = omega arith
closing_room failed = omega arith

pub SameQueue-refl : (t : Tcp) → SameQueue t t
SameQueue-refl t = record { room = omega arith; slots = refl; head = refl; tail = refl }

pub SameQueue-trans : (t u v : Tcp) → SameQueue t u → SameQueue u v → SameQueue t v
SameQueue-trans t u v a b = record {
  room = omega (arith, a.room, b.room);
  slots = b.slots ∙ a.slots;
  head = b.head ∙ a.head;
  tail = b.tail ∙ a.tail;
}

-- The queue and the ring.
pub record Keeps (t t' : Tcp) : Type 0 where
  pub queue : SameQueue t t'
  pub ring : t'.rx ≡ t.rx

pub emit-Keeps :
    (t : Tcp) (w : Wire) (seq flags : ℕ) (payload : List ℕ) → Keeps t (emit t w seq flags payload).1
unfolding emit
emit-Keeps t w seq flags payload = record {
  queue = record { room = omega arith; slots = refl; head = refl; tail = refl };
  ring = refl;
}

pub send_ack-SameQueue : (t : Tcp) (w : Wire) → SameQueue t (send_ack t w).0
unfolding send_ack
send_ack-SameQueue t w =
    if-cases (λ (o : Tcp × Wire). SameQueue t o.0) (is_open t.state) _ _
      (λ h. (emit-Keeps t w t.snd_nxt 0x10 []).queue) (λ h. SameQueue-refl t)

settle-SameQueue : (t : Tcp) → SameQueue t (settle t)
unfolding settle
settle-SameQueue t =
    if-cases (SameQueue t) (is_fin_wait t.state && fin_acked t) _ t
      (λ h. record { room = closing_room t.state; slots = refl; head = refl; tail = refl })
      (λ h. SameQueue-refl t)

take_payload-SameQueue : (t : Tcp) (seg : Segment) → SameQueue t (take_payload t seg)
unfolding take_payload
take_payload-SameQueue t seg =
    if-cases (SameQueue t) (length seg.payload == 0) t _ (λ h. SameQueue-refl t)
      λ h.
        if-cases (SameQueue t) (seg.seq == t.rcv_nxt) _ t
          (λ e. record { room = omega arith; slots = refl; head = refl; tail = refl })
          (λ e. SameQueue-refl t)

take_fin-SameQueue : (t : Tcp) (w : Wire) → SameQueue t (take_fin t w).0
unfolding take_fin
take_fin-SameQueue t w =
    let kept =
      send_ack-SameQueue (record t { peer_closed = true; rcv_nxt = add32 t.rcv_nxt 1 }) w in
    if-cases (λ (o : Tcp × Wire). SameQueue t o.0) (is_closing t.state) _ _
      (λ h. record {
        room = closing_room t.state;
        slots = kept.slots;
        head = kept.head;
        tail = kept.tail;
      })
      (λ h. record {
        room = closing_room t.state;
        slots = kept.slots;
        head = kept.head;
        tail = kept.tail;
      })

on_open-SameQueue : (t : Tcp) (w : Wire) (seg : Segment) → SameQueue t (on_open t w seg).0
unfolding on_open
on_open-SameQueue t w seg =
    let P : Tcp × Wire → Type 0 = λ o. SameQueue t o.0 in
    let kept = take_payload t seg in
    let a = take_payload-SameQueue t seg in
    let acked = (send_ack kept w).0 in
    if-cases P (has_fin seg) _ _ (λ h. SameQueue-trans t kept _ a (take_fin-SameQueue kept w))
      λ h.
        if-cases P (length seg.payload == 0) _ _
          (λ z. SameQueue-trans t kept _ a (settle-SameQueue kept))
          λ z.
            SameQueue-trans t kept _ a
              (SameQueue-trans kept acked _ (send_ack-SameQueue kept w) (settle-SameQueue acked))

on_syn_sent-SameQueue :
    (t : Tcp) (w : Wire) (seg : Segment)
    → is_syn_sent t.state ≡ true
    → SameQueue t (on_syn_sent t w seg).0
unfolding on_syn_sent
on_syn_sent-SameQueue t w seg making =
    if-cases (λ (o : Tcp × Wire). SameQueue t o.0) (has_syn seg && has_ack seg) _ (t, w)
      (λ h.
        let kept = send_ack-SameQueue _ w in
        record {
          room = omega (arith, kept.room, making_room t.state making);
          slots = kept.slots;
          head = kept.head;
          tail = kept.tail;
        })
      (λ h. SameQueue-refl t)
  where
    making_room : (s : State) → is_syn_sent s ≡ true → most_queued s ≤ tx_slots
    making_room syn_sent h = omega arith
    making_room closed h = absurd (clash h refl)
    making_room established h = absurd (clash h refl)
    making_room fin_wait h = absurd (clash h refl)
    making_room fin_sent h = absurd (clash h refl)
    making_room failed h = absurd (clash h refl)

pub on_segment-SameQueue : (t : Tcp) (w : Wire) (seg : Segment) → SameQueue t (on_segment t w seg).0
unfolding on_segment
on_segment-SameQueue t w seg =
    let P : Tcp × Wire → Type 0 = λ o. SameQueue t o.0 in
    if-cases P (is_syn_sent t.state) _ _ (λ h. on_syn_sent-SameQueue t w seg h)
      λ h. if-cases P (is_open t.state) _ _ (λ o. on_open-SameQueue t w seg) (λ o. SameQueue-refl t)

Keeps-trans : (t u v : Tcp) → Keeps t u → Keeps u v → Keeps t v
Keeps-trans t u v a b = record {
  queue = SameQueue-trans t u v a.queue b.queue;
  ring = b.ring ∙ a.ring;
}

pub emit_slot-Keeps : (t : Tcp) (w : Wire) (i : ℕ) → Keeps t (emit_slot t w i).1
unfolding emit_slot
emit_slot-Keeps t w i = emit-Keeps t w _ _ _

Keeps-refl : (t : Tcp) → Keeps t t
Keeps-refl t = record { queue = SameQueue-refl t; ring = refl }

resend-Keeps : (t : Tcp) (w : Wire) (k i sent : ℕ) → Keeps t (resend t w k i sent).1
unfolding resend
resend-Keeps t w zero i sent = Keeps-refl t
resend-Keeps t w (suc k) i sent =
    let P : Bool × Tcp × Wire → Type 0 = λ o. Keeps t o.1 in
    let (ok, t', w') = emit_slot t w i in
    let one = emit_slot-Keeps t w i in
    if-cases P (i == t.tx_tail) _ _ (λ h. Keeps-refl t)
      λ h.
        if-cases P ok _ _
          (λ o. Keeps-trans t t' _ one (resend-Keeps t' w' k (add32 i 1) (sent + 1))) (λ o. one)

send_again-Keeps : (t : Tcp) (w : Wire) → Keeps t (send_again t w).1
unfolding send_again
send_again-Keeps t w =
    let P : Bool × Tcp × Wire → Type 0 = λ o. Keeps t o.1 in
    if-cases P (is_syn_sent t.state) _ _ (λ h. emit-Keeps t w t.iss 0x02 [])
      λ h.
        if-cases P (t.tx_head == t.tx_tail) _ _ (λ e. Keeps-refl t)
          (λ e. resend-Keeps t w (in_flight t) t.tx_head 0)

count_retry-Keeps : (t : Tcp) → Keeps t (count_retry t)
unfolding count_retry
count_retry-Keeps t =
    if-cases (Keeps t) (ltb max_retries (add32 t.retries 1)) _ _
      (λ h. record {
        queue = record { room = closing_room t.state; slots = refl; head = refl; tail = refl };
        ring = refl;
      })
      (λ h. record {
        queue = record { room = omega arith; slots = refl; head = refl; tail = refl };
        ring = refl;
      })

pub tick-Keeps : (t : Tcp) (w : Wire) → Keeps t (tick t w).0
unfolding tick
tick-Keeps t w =
    let P : Tcp × Wire → Type 0 = λ o. Keeps t o.0 in
    let (counts, t', w') = send_again t w in
    let again = send_again-Keeps t w in
    if-cases P (not t.active) _ _ (λ h. Keeps-refl t)
      λ h.
        if-cases P (ltb (w.now - t.last_send) retry_ticks) _ _ (λ e. Keeps-refl t)
          λ e.
            if-cases P counts _ _ (λ c. Keeps-trans t t' _ again (count_retry-Keeps t'))
              (λ c. again)
