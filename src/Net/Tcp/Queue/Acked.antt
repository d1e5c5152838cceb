-- ===== src/Net/Tcp/Queue/Acked.antt =====
-- kernel/src/net/tcp.rs: what an acknowledgement takes off the transmit queue.
use barry_os.Common.{
  ◌%◌, ◌<◌, ◌≡◌, suc, ap, leb, ◌+◌, ◌≤◌, if◌then◌else◌, [], ◌-◌, ap₂, length, arith, ne→==, get_or,
  sym, Bool-cases, ◌*◌, inl, zero, ◌∙◌, inr, refl, ◌≢◌, if-cases, ◌==◌, subst, ==→eq, ==→ne,
}
use barry_os.Common.Words.{u32_mod, add32}
use barry_os.Net.Tcp.Block.{
  Tcp, tx_slots, in_flight, payload_of, bytes_from, slot_at, length-bytes_from, no_slot, max_seg,
}
use barry_os.Net.Tcp.Input.{covers, retire, ack_advance}
use barry_os.Net.Tcp.Queue.{
  Packet, packet_at, packets, outstanding, IsQueue, List, ℕ, Bool, ◌≡◌, ◌%◌, ◌∷◌, ◌<◌, packets_ext,
}

-- The acknowledgement is past the packet's last byte, and past its FIN.
abbrev pub is_acked : ℕ → Packet → Bool
is_acked ack p =
    leb (length p.payload + (if p.fin then 1 else 0)) ((ack + u32_mod - p.seq) % u32_mod)

-- The packets from the first one on that is not acknowledged.
abbrev pub unacked : ℕ → List Packet → List Packet
unacked ack [] = []
unacked ack (p ∷ ps) = if is_acked ack p then unacked ack ps else p ∷ ps

-- The sequence number of the first packet.
abbrev pub first_seq : List Packet → ℕ → ℕ
first_seq [] next = next
first_seq (p ∷ ps) next = p.seq

covers-is_acked : (t : Tcp) (ack i : ℕ) → covers ack (slot_at t i) ≡ is_acked ack (packet_at t i)
unfolding covers packet_at payload_of
covers-is_acked t ack i =
    let s = slot_at t i in
    ap (λ n. leb (n + (if s.fin then 1 else 0)) ((ack + u32_mod - s.seq) % u32_mod))
      (sym (length-bytes_from t.tx_buf (i % tx_slots * 1460) s.len))

-- Only the slot of a position matters.
packets_slot : (t : Tcp) (i j n : ℕ) → i % tx_slots ≡ j % tx_slots → packets t i n ≡ packets t j n
unfolding packets packet_at slot_at payload_of
packets_slot t i j zero e = refl
packets_slot t i j (suc n) e =
    ap₂ ◌∷◌
      (ap
        (λ k.
          let s = get_or t.slots k no_slot in
          record { seq = s.seq; fin = s.fin; payload = bytes_from t.tx_buf (k * max_seg) s.len })
        e)
      (packets_slot t (i + 1) (j + 1) n (omega (arith, e)))

-- Where the loop stops: at the end of the queue, or at a segment that is not acknowledged.
record IsRetired (t : Tcp) (bs : List Packet) (k head : ℕ) : Type 0 where
  word : head < u32_mod
  left : packets t head ((t.tx_tail + u32_mod - head) % u32_mod) ≡ bs
  fewer : (t.tx_tail + u32_mod - head) % u32_mod ≤ k

retire-IsRetired :
    (t : Tcp) (ack k head : ℕ)
    → head < u32_mod
    → t.tx_tail < u32_mod
    → k < u32_mod
    → (head + k) % u32_mod ≡ t.tx_tail
    → IsRetired t (unacked ack (packets t head k)) k (retire t ack k head)
unfolding retire packets
retire-IsRetired t ack zero head hw tw few e = record {
  word = hw;
  left = ap (packets t head) {y = 0} (omega (arith, e));
  fewer = omega (arith, e);
}
retire-IsRetired t ack (suc k) head hw tw few e =
    let ih =
      retire-IsRetired t ack k (add32 head 1) (omega arith) tw (omega arith) (omega (arith, e)) in
    let same = packets_slot t (add32 head 1) (head + 1) k (omega arith) in
    rw (ne→== head t.tx_tail (λ z. absurd (omega (arith, e, z))), covers-is_acked t ack head)
      (elim (Bool-cases (is_acked ack (packet_at t head))) [
        | inl h ↦ rw (h) (record {
          word = ih.word;
          left = ih.left ∙ ap (unacked ack) same;
          fewer = omega (arith, ih.fewer);
        })
        | inr h ↦ rw (h) (record {
          word = hw;
          left = ap (packets t head) {y = suc k} (omega (arith, e));
          fewer = omega (arith, e);
        })
      ])

first_seq-packets :
    (t : Tcp) (head n next : ℕ) → n ≢ 0 → first_seq (packets t head n) next ≡ (slot_at t head).seq
unfolding packets packet_at
first_seq-packets t head zero next h = absurd (h refl)
first_seq-packets t head (suc n) next h = refl

-- However many segments are queued, no more are after an acknowledgement.
pub ack_advance-in_flight :
    (t : Tcp) (ack : ℕ)
    → t.tx_head < u32_mod
    → t.tx_tail < u32_mod
    → ((ack_advance t ack).tx_head < u32_mod) × (in_flight (ack_advance t ack) ≤ in_flight t)
unfolding ack_advance
ack_advance-in_flight t ack head_word tail_word =
    let done =
      retire-IsRetired t ack (in_flight t) t.tx_head head_word tail_word (omega arith)
        (omega (arith, head_word, tail_word)) in
    (done.word, done.fewer)

-- An acknowledgement takes off the queue the segments that it covers, the oldest first, up to the
-- first one that it does not cover; the others stay as they are, the queue stays well formed, and the
-- oldest byte not acknowledged is then the first one queued, or the next one to send.
pub ack_advance_lem :
    (t : Tcp) (ack : ℕ)
    → IsQueue t
    → let t' = ack_advance t ack in
      (outstanding t' ≡ unacked ack (outstanding t))
      × IsQueue t'
      × (t'.snd_una ≡ first_seq (unacked ack (outstanding t)) t.snd_nxt)
unfolding ack_advance packet_at slot_at payload_of packets
ack_advance_lem t ack v =
    let head = retire t ack (in_flight t) t.tx_head in
    let done =
      retire-IsRetired t ack (in_flight t) t.tx_head v.head_word v.tail_word (omega (arith, v.few))
        (omega (arith, v.head_word, v.tail_word)) in
    let n = (t.tx_tail + u32_mod - head) % u32_mod in
    let t' = ack_advance t ack in
    (
      packets_ext t' t head n (λ j lt. refl) ∙ done.left,
      record {
        head_word = done.word;
        tail_word = v.tail_word;
        few = omega (arith, done.fewer, v.few);
        slotted = v.slotted;
        short = v.short;
      },
      if-cases (λ u. u ≡ first_seq (unacked ack (outstanding t)) t.snd_nxt) (head == t.tx_tail) _ _
          (λ h.
            subst (λ ps. t.snd_nxt ≡ first_seq ps t.snd_nxt) done.left
              (ap (λ k. first_seq (packets t head k) t.snd_nxt) {x = 0} {y = n}
                (omega (arith, ==→eq head t.tx_tail h, v.tail_word))))
          (λ h.
            subst (λ ps. (slot_at t head).seq ≡ first_seq ps t.snd_nxt) done.left
              (sym (
                first_seq-packets t head n t.snd_nxt (λ z.
                  absurd (omega (arith, z, ==→ne head t.tx_tail h, v.tail_word, done.word)))))),
    )
