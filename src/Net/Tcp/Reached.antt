-- ===== src/Net/Tcp/Reached.antt =====
-- kernel/src/net/tcp.rs: the states that a connection can reach, by the calls of the kernel.
use barry_os.Common.Words.{add64, u32_mod}
use barry_os.Common.{
  none, some, ℕ, [], if-cases, subst, ◌<◌, List, arith, length-set, ◌≡◌, All-replicate, sym, refl,
  Bool, ◌%◌, ◌∙◌, not, All-set, length, ◌==◌, ◌||◌, ltb, leb, ap, true, ◌≤◌, ◌⊎◌, All, false, clash,
  inl, inr, Bool-cases,
}
use barry_os.Net.Arp.{Ip}
use barry_os.Net.Wire.{Wire}
use barry_os.Net.Tcp.Ring.{rx_len, rx_release}
use barry_os.Net.Tcp.Stream.{IsRing, rx_release_lem}
use barry_os.Net.Tcp.Block.{
  Tcp, IsShort, no_slot, boot, reset, start, connect, send, close, enqueue_fin, queue_slot, release,
  in_flight, tx_slots, max_seg, initial_seq, enqueue, is_established, IsShort, State, closed,
  syn_sent, established, fin_wait, fin_sent, failed,
}
use barry_os.Net.Tcp.Input.{
  Segment, parse, handle_segment, handle, take_ack, is_new_ack, has_rst, ack_advance,
}
use barry_os.Net.Tcp.Timer.{tick}
use barry_os.Net.Tcp.Queue.{IsQueue}
use barry_os.Net.Tcp.Queue.Enqueue.{send_lem}
use barry_os.Net.Tcp.Queue.Acked.{ack_advance-in_flight}
use barry_os.Net.Tcp.Order.{handle-arrived, send_ack-rx}
use barry_os.Net.Tcp.Keeps.{
  SameQueue, Keeps, emit-Keeps, emit_slot-Keeps, send_ack-SameQueue, on_segment-SameQueue,
  tick-Keeps, closing_room, most_queued,
}

-- One call.
pub data Step (w : Wire) (t : Tcp) : Tcp → Type 0 where
  connects : (ip : Ip) (port local_port tsc : ℕ) → Step w t (connect t w ip port local_port tsc).1
  sends : (bytes : List ℕ) → Step w t (send t w bytes).1
  closes : Step w t (close t w).0
  resets : Step w t (reset t)
  receives : (src : Ip) (body : List ℕ) → Step w t (handle t w src body).0
  releases : (n : ℕ) → Step w t (release t w n).0
  ticks : Step w t (tick t w).0

-- The states that a history of calls leads to, each with the link as it is then.
pub data Reached : Tcp → Type 0 where
  booted : Reached boot
  stepped : (t t' : Tcp) (w : Wire) → Reached t → Step w t t' → Reached t'

-- The positions are words, no more segments are queued than the state has room for, there are eight
-- slots, and what is in each fits in a frame.
pub record IsHeld (t : Tcp) : Type 0 where
  pub head_word : t.tx_head < u32_mod
  pub tail_word : t.tx_tail < u32_mod
  pub few : in_flight t ≤ most_queued t.state
  pub slotted : length t.slots ≡ tx_slots
  pub short : All IsShort t.slots

-- A well-formed transmit queue and receive ring.
pub record IsTcp (t : Tcp) : Type 0 where
  pub queue : IsHeld t
  pub ring : IsRing t.rx

IsHeld-SameQueue : (t t' : Tcp) → SameQueue t t' → IsHeld t → IsHeld t'
IsHeld-SameQueue t t' e v = record {
  head_word = omega (arith, e.head, v.head_word);
  tail_word = omega (arith, e.tail, v.tail_word);
  few = omega (arith, e.head, e.tail, e.room, v.few);
  slotted = ap length e.slots ∙ v.slotted;
  short = subst (All IsShort) (sym e.slots) v.short;
}

Keeps-IsTcp : (t t' : Tcp) → Keeps t t' → IsTcp t → IsTcp t'
Keeps-IsTcp t t' k v = record {
  queue = IsHeld-SameQueue t t' k.queue v.queue;
  ring = subst IsRing (sym k.ring) v.ring;
}

-- While the connection is open, the queue has a slot for each segment.
open-IsQueue : (t : Tcp) → is_established t.state ≡ true → IsHeld t → IsQueue t
open-IsQueue t up v = record {
  head_word = v.head_word;
  tail_word = v.tail_word;
  few = omega (arith, v.few, eight t.state up);
  slotted = v.slotted;
  short = v.short;
}
  where
    eight : (s : State) → is_established s ≡ true → most_queued s ≡ tx_slots
    eight established h = refl
    eight closed h = absurd (clash h refl)
    eight syn_sent h = absurd (clash h refl)
    eight fin_wait h = absurd (clash h refl)
    eight fin_sent h = absurd (clash h refl)
    eight failed h = absurd (clash h refl)

-- A queue with a slot for each segment is in bounds in every state.
IsQueue-IsHeld : (t : Tcp) → IsQueue t → IsHeld t
IsQueue-IsHeld t v = record {
  head_word = v.head_word;
  tail_word = v.tail_word;
  few = omega (arith, v.few, least t.state);
  slotted = v.slotted;
  short = v.short;
}
  where
    least : (s : State) → tx_slots ≤ most_queued s
    least closed = omega arith
    least syn_sent = omega arith
    least established = omega arith
    least fin_wait = omega arith
    least fin_sent = omega arith
    least failed = omega arith

boot-IsTcp : IsTcp boot
unfolding rx_len
boot-IsTcp = record {
  queue = record {
    head_word = omega arith;
    tail_word = omega arith;
    few = omega arith;
    slotted = refl;
    short = All-replicate IsShort 8 no_slot (omega arith);
  };
  ring = record { head_word = omega arith; tail_word = omega arith; fits = omega arith };
}

reset-IsTcp : (t : Tcp) → IsTcp t → IsTcp (reset t)
unfolding reset rx_len
reset-IsTcp t v = record {
  queue = record {
    head_word = omega arith;
    tail_word = omega arith;
    few = omega arith;
    slotted = v.queue.slotted;
    short = v.queue.short;
  };
  ring = record { head_word = omega arith; tail_word = omega arith; fits = omega arith };
}

start-IsTcp :
    (t : Tcp) (ip : Ip) (port local_port iss : ℕ) → IsTcp t → IsTcp (start t ip port local_port iss)
unfolding start reset
start-IsTcp t ip port local_port iss v =
    let cleared = reset-IsTcp t v in
    record {
      queue = record {
        head_word = omega arith;
        tail_word = omega arith;
        few = omega arith;
        slotted = v.queue.slotted;
        short = v.queue.short;
      };
      ring = cleared.ring;
    }

send-rx : (t : Tcp) (w : Wire) (bytes : List ℕ) → (send t w bytes).1.rx ≡ t.rx
unfolding send enqueue queue_slot
send-rx t w bytes =
    let P : Bool × Tcp × Wire → Type 0 = λ o. o.1.rx ≡ t.rx in
    if-cases P (not (is_established t.state)) _ _ (λ h. refl)
      λ h.
        if-cases P (length bytes == 0 || ltb max_seg (length bytes)) _ _ (λ e. refl)
          λ e.
            if-cases P (leb tx_slots (in_flight t)) _ _ (λ f. refl)
              (λ f. (emit_slot-Keeps (enqueue t bytes) w (t.tx_tail % tx_slots)).ring)

send-IsTcp : (t : Tcp) (w : Wire) (bytes : List ℕ) → IsTcp t → IsTcp (send t w bytes).1
send-IsTcp t w bytes v = record {
  queue = held (Bool-cases (is_established t.state));
  ring = subst IsRing (sym (send-rx t w bytes)) v.ring;
}
  where
    held :
        (is_established t.state ≡ true) ⊎ (is_established t.state ≡ false)
        → IsHeld (send t w bytes).1
    held (inl up) =
        IsQueue-IsHeld (send t w bytes).1 (send_lem t w bytes (open-IsQueue t up v.queue)).0
    held (inr down) = unfold send in rw (down, send) v.queue

-- `close` asks only whether the connection is open, and so may queue a ninth segment.
enqueue_fin-IsTcp : (t : Tcp) → is_established t.state ≡ true → IsTcp t → IsTcp (enqueue_fin t)
unfolding enqueue_fin queue_slot
enqueue_fin-IsTcp t up v =
    let q = open-IsQueue t up v.queue in
    record {
      queue = record {
        head_word = q.head_word;
        tail_word = omega arith;
        few = omega (arith, q.few, q.head_word, q.tail_word);
        slotted = length-set t.slots (t.tx_tail % tx_slots) _ ∙ q.slotted;
        short = All-set IsShort t.slots (t.tx_tail % tx_slots) _ (omega arith) q.short;
      };
      ring = v.ring;
    }

close-IsTcp : (t : Tcp) (w : Wire) → IsTcp t → IsTcp (close t w).0
unfolding close
close-IsTcp t w v =
    if-cases (λ (o : Tcp × Wire). IsTcp o.0) (is_established t.state) _ _
      (λ up.
        Keeps-IsTcp (enqueue_fin t) _ (emit_slot-Keeps (enqueue_fin t) w (t.tx_tail % tx_slots))
          (enqueue_fin-IsTcp t up v))
      (λ h. v)

take_ack-IsHeld : (t : Tcp) (seg : Segment) → IsHeld t → IsHeld (take_ack t seg)
unfolding take_ack
take_ack-IsHeld t seg v =
    let (word, fewer) = ack_advance-in_flight t seg.ack v.head_word v.tail_word in
    if-cases IsHeld (is_new_ack t seg) _ t
      (λ h.
        unfold ack_advance in
        record {
          head_word = word;
          tail_word = v.tail_word;
          few = omega (arith, fewer, v.few);
          slotted = v.slotted;
          short = v.short;
        })
      (λ h. v)

handle_segment-IsHeld :
    (t : Tcp) (w : Wire) (seg : Segment) → IsHeld t → IsHeld (handle_segment t w seg).0
unfolding handle_segment
handle_segment-IsHeld t w seg v =
    let counted = record t { segments_in = add64 t.segments_in 1 } in
    let v' =
      IsHeld-SameQueue t counted
        (record { room = omega arith; slots = refl; head = refl; tail = refl }) v in
    if-cases (λ (o : Tcp × Wire). IsHeld o.0) (has_rst seg) _ _
      (λ h.
        IsHeld-SameQueue t _
          (record { room = closing_room t.state; slots = refl; head = refl; tail = refl }) v)
      λ h.
        IsHeld-SameQueue (take_ack counted seg) _
          (on_segment-SameQueue (take_ack counted seg) w seg) (take_ack-IsHeld counted seg v')

handle-IsHeld :
    (t : Tcp) (w : Wire) (src : Ip) (body : List ℕ) → IsHeld t → IsHeld (handle t w src body).0
unfolding handle
handle-IsHeld t w src body v =
    elim (parse t src body)
      as (λ o.
        IsHeld
          (elim o as (λ p. Tcp × Wire) [ none ↦ (t, w) | some seg ↦ handle_segment t w seg ]).0) [
            | none ↦ v
            | some seg ↦ handle_segment-IsHeld t w seg v
          ]

release-IsTcp : (t : Tcp) (w : Wire) (n : ℕ) → IsTcp t → IsTcp (release t w n).0
unfolding release
release-IsTcp t w n v =
    let (left, ring, told) = rx_release_lem t.rx n v.ring in
    let freed = record t { rx = (rx_release t.rx n).1 } in
    let v' : IsTcp freed = record {
      queue =
          IsHeld-SameQueue t freed
            (record { room = omega arith; slots = refl; head = refl; tail = refl }) v.queue;
      ring = ring;
    } in
    if-cases (λ (o : Tcp × Wire). IsTcp o.0) (rx_release t.rx n).0 _ _
      (λ h.
        Keeps-IsTcp freed _
          (record { queue = send_ack-SameQueue freed w; ring = send_ack-rx freed w }) v')
      (λ h. v')

Step-IsTcp : (w : Wire) (t t' : Tcp) → Step w t t' → IsTcp t → IsTcp t'
unfolding connect
Step-IsTcp w t t' (connects ip port local_port tsc) v =
    Keeps-IsTcp (start t ip port local_port (initial_seq tsc w.now)) _ (emit-Keeps _ w _ 0x02 [])
      (start-IsTcp t ip port local_port (initial_seq tsc w.now) v)
Step-IsTcp w t t' (sends bytes) v = send-IsTcp t w bytes v
Step-IsTcp w t t' closes v = close-IsTcp t w v
Step-IsTcp w t t' resets v = reset-IsTcp t v
Step-IsTcp w t t' (receives src body) v = record {
  queue = handle-IsHeld t w src body v.queue;
  ring = (handle-arrived t w src body v.ring).0;
}
Step-IsTcp w t t' (releases n) v = release-IsTcp t w n v
Step-IsTcp w t t' ticks v = Keeps-IsTcp t _ (tick-Keeps t w) v

-- Whatever the kernel calls, the peer sends and the link does: what is in each of the eight slots fits
-- in a frame, and the receive ring holds no more than its capacity. At most eight segments are queued
-- while the connection is being made or is open, and at most nine in the other states, since a
-- connection that is closed with every slot taken has its FIN queued as well.
pub Reached-IsTcp : (t : Tcp) → Reached t → IsTcp t
Reached-IsTcp t booted = boot-IsTcp
Reached-IsTcp t (stepped s t' w r step) = Step-IsTcp w s t step (Reached-IsTcp s r)
