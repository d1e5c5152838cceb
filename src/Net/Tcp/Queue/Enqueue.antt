-- ===== src/Net/Tcp/Queue/Enqueue.antt =====
-- kernel/src/net/tcp.rs: what `send` puts in the transmit queue.
use barry_os.Common.{
  le→leb, gt→leb, ◌+◌, ◌≤◌, ◌<◌, ◌≡◌, suc, arith, false, ◌∷◌, refl, ◌++◌, ◌&&◌, ◌⊎◌, if◌then◌else◌,
  ◌%◌, ap₂, [], not, length-set, ◌*◌, ◌≢◌, ◌∙◌, inl, Bool-cases, All-set, ne→==, get_or, ap, ◌==◌,
  zero, inr, eq→==, leb, set, All-get_or, ltb, dec_le, get_or-set_ne, get_or-set_self, lt→ltb,
  gt→leb, dec_lt, ge→ltb, le→leb, clash,
}
use barry_os.Net.Wire.{Wire}
use barry_os.Net.Tcp.Ring.{put}
use barry_os.Net.Tcp.Block.{
  Tcp, Slot, IsShort, max_seg, tx_slots, in_flight, payload_of, bytes_from, slot_at, no_slot, store,
  enqueue, queue_slot, is_established, emit, emit_slot, send,
}
use barry_os.Net.Tcp.Queue.{
  packet_at, packets, outstanding, IsQueue, packets_ext, packets_snoc, List, ℕ, ◌+◌, Bool, ◌≤◌, ◌≡◌,
  length, ◌<◌,
}

store_other :
    (buf : ℕ → ℕ) (at : ℕ) (bs : List ℕ) (k : ℕ)
    → (k < at) ⊎ (at + length bs ≤ k)
    → store buf at bs k ≡ buf k
unfolding store put
store_other buf at [] k h = refl
store_other buf at (b ∷ bs) k h =
    store_other (put buf at b) (at + 1) bs k (ground (arith, h))
    ∙ rw (ne→== k at (ground (arith, h))) refl

bytes_from_ext :
    (f g : ℕ → ℕ) (at len : ℕ)
    → ((k : ℕ) → at ≤ k → k < at + len → f k ≡ g k)
    → bytes_from f at len ≡ bytes_from g at len
unfolding bytes_from
bytes_from_ext f g at zero h = refl
bytes_from_ext f g at (suc len) h =
    ap₂ ◌∷◌ (h at (omega arith) (omega arith))
      (bytes_from_ext f g (at + 1) len (λ k a b. h k (omega arith) (omega arith)))

bytes_from-store :
    (buf : ℕ → ℕ) (at : ℕ) (bs : List ℕ) → bytes_from (store buf at bs) at (length bs) ≡ bs
unfolding bytes_from store put
bytes_from-store buf at [] = refl
bytes_from-store buf at (b ∷ bs) =
    ap₂ ◌∷◌
      (store_other (put buf at b) (at + 1) bs at (inl (omega arith)) ∙ rw (eq→== at at refl) refl)
      (bytes_from-store (put buf at b) (at + 1) bs)

-- Two positions less than eight apart have different slots.
enqueue_old :
    (t : Tcp) (bytes : List ℕ) (j : ℕ)
    → IsQueue t
    → in_flight t < tx_slots
    → length bytes ≤ max_seg
    → j < in_flight t
    → packet_at (enqueue t bytes) (t.tx_head + j) ≡ packet_at t (t.tx_head + j)
unfolding packet_at enqueue queue_slot slot_at payload_of
enqueue_old t bytes j v room fits lt =
    let a = (t.tx_head + j) % tx_slots in
    let b = t.tx_tail % tx_slots in
    let apart : b ≢ a = λ e. absurd (omega (arith, e, lt, room, v.head_word, v.tail_word)) in
    let s = get_or t.slots a no_slot in
    let small = All-get_or IsShort t.slots a no_slot (omega arith) v.short in
    let slot =
      get_or-set_ne t.slots b a (record { seq = t.snd_nxt; len = length bytes; fin = false })
        no_slot apart in
    ap
      (λ (s : Slot). record {
        seq = s.seq;
        fin = s.fin;
        payload = bytes_from (store t.tx_buf (b * max_seg) bytes) (a * max_seg) s.len;
      })
      slot
    ∙ ap (λ p. record { seq = s.seq; fin = s.fin; payload = p })
        (bytes_from_ext _ t.tx_buf (a * max_seg) s.len
          (λ k lo hi. store_other t.tx_buf (b * max_seg) bytes k (ground (arith, apart, small))))

enqueue_new :
    (t : Tcp) (bytes : List ℕ)
    → IsQueue t
    → packet_at (enqueue t bytes) (t.tx_head + in_flight t)
      ≡ record { seq = t.snd_nxt; fin = false; payload = bytes }
unfolding packet_at enqueue queue_slot slot_at payload_of
enqueue_new t bytes v =
    let b = t.tx_tail % tx_slots in
    let new : Slot = record { seq = t.snd_nxt; len = length bytes; fin = false } in
    let buf = store t.tx_buf (b * max_seg) bytes in
    ap
      (λ a.
        let s = get_or (set t.slots b new) a no_slot in
        record { seq = s.seq; fin = s.fin; payload = bytes_from buf (a * max_seg) s.len })
      {x = (t.tx_head + in_flight t) % tx_slots} {y = b} (omega (arith, v.head_word, v.tail_word))
    ∙ ap
        (λ (s : Slot). record {
          seq = s.seq;
          fin = s.fin;
          payload = bytes_from buf (b * max_seg) s.len;
        })
        (get_or-set_self t.slots b new no_slot (omega (arith, v.slotted)))
    ∙ ap (λ p. record { seq = t.snd_nxt; fin = false; payload = p })
        (bytes_from-store t.tx_buf (b * max_seg) bytes)

enqueue_flight :
    (t : Tcp) (bytes : List ℕ)
    → IsQueue t
    → in_flight t < tx_slots
    → in_flight (enqueue t bytes) ≡ in_flight t + 1
unfolding enqueue queue_slot
enqueue_flight t bytes v room = omega (arith, v.head_word, v.tail_word)

outstanding-enqueue :
    (t : Tcp) (bytes : List ℕ)
    → IsQueue t
    → in_flight t < tx_slots
    → length bytes ≤ max_seg
    → outstanding (enqueue t bytes)
      ≡ outstanding t ++ record { seq = t.snd_nxt; fin = false; payload = bytes } ∷ []
unfolding enqueue queue_slot
outstanding-enqueue t bytes v room fits =
    ap (packets (enqueue t bytes) t.tx_head) (enqueue_flight t bytes v room)
    ∙ packets_snoc (enqueue t bytes) t.tx_head (in_flight t)
    ∙ ap₂ (λ ps p. ps ++ p ∷ [])
        (packets_ext _ t t.tx_head (in_flight t) (λ j lt. enqueue_old t bytes j v room fits lt))
        (enqueue_new t bytes v)

enqueue-IsQueue :
    (t : Tcp) (bytes : List ℕ)
    → IsQueue t
    → in_flight t < tx_slots
    → length bytes ≤ max_seg
    → IsQueue (enqueue t bytes)
unfolding enqueue queue_slot
enqueue-IsQueue t bytes v room fits = record {
  head_word = v.head_word;
  tail_word = omega arith;
  few = omega (arith, enqueue_flight t bytes v room);
  slotted = length-set t.slots (t.tx_tail % tx_slots) _ ∙ v.slotted;
  short = All-set IsShort t.slots (t.tx_tail % tx_slots) _ fits v.short;
}

-- The same queue in another block.
pub outstanding-emit_slot :
    (t : Tcp) (w : Wire) (i : ℕ) → outstanding (emit_slot t w i).1 ≡ outstanding t
unfolding emit_slot emit packet_at slot_at payload_of
outstanding-emit_slot t w i = packets_ext _ t t.tx_head (in_flight t) (λ j lt. refl)

emit_slot-IsQueue : (t : Tcp) (w : Wire) (i : ℕ) → IsQueue t → IsQueue (emit_slot t w i).1
unfolding emit_slot emit
emit_slot-IsQueue t w i v = record {
  head_word = v.head_word;
  tail_word = v.tail_word;
  few = v.few;
  slotted = v.slotted;
  short = v.short;
}

-- What `send` needs to take the bytes: an open connection, between 1 and 1460 bytes, and a free slot.
abbrev pub takes : Tcp → List ℕ → Bool
takes t bytes =
    is_established t.state
    && not (length bytes == 0)
    && leb (length bytes) max_seg
    && ltb (in_flight t) tx_slots

-- Sending keeps the queue well formed. It adds the bytes, with the next sequence number, after the
-- segments that are not acknowledged, which stay as they are; when it cannot take the bytes it refuses
-- and changes nothing.
pub send_lem :
    (t : Tcp) (w : Wire) (bytes : List ℕ)
    → IsQueue t
    → let (ok, t', w') = send t w bytes in
      IsQueue t'
      × (outstanding t' ≡ (
          if takes t bytes
          then outstanding t ++ record { seq = t.snd_nxt; fin = false; payload = bytes } ∷ []
          else outstanding t))
      × (takes t bytes ≡ false → send t w bytes ≡ (false, t, w))
unfolding send
send_lem t w bytes v =
    let n = length bytes in
    let full = in_flight t in
    let sent = emit_slot (enqueue t bytes) w (t.tx_tail % tx_slots) in
    elim (Bool-cases (is_established t.state)) [
      | inr e ↦ rw (e) ((v, refl, λ h. refl))
      | inl e ↦ elim (Bool-cases (n == 0)) [
        | inl z ↦ rw (e, z) ((v, refl, λ h. refl))
        | inr z ↦ elim (dec_le n max_seg) [
          | no big ↦
              rw (e, z, lt→ltb max_seg n (omega arith), gt→leb n max_seg (omega arith))
                ((v, refl, λ h. refl))
          | yes fits ↦ elim (dec_lt full tx_slots) [
            | no f ↦
                rw
                  (
                    e,
                    z,
                    ge→ltb max_seg n fits,
                    le→leb n max_seg fits,
                    ge→ltb full tx_slots (omega arith),
                    le→leb tx_slots full (omega arith),
                  )
                  ((v, refl, λ h. refl))
            | yes room ↦
                rw
                  (
                    e,
                    z,
                    ge→ltb max_seg n fits,
                    le→leb n max_seg fits,
                    lt→ltb full tx_slots room,
                    gt→leb tx_slots full room,
                  )
                  ((
                    emit_slot-IsQueue (enqueue t bytes) w (t.tx_tail % tx_slots)
                        (enqueue-IsQueue t bytes v room fits),
                    outstanding-emit_slot (enqueue t bytes) w (t.tx_tail % tx_slots)
                        ∙ outstanding-enqueue t bytes v room fits,
                    λ h. absurd (clash refl h),
                  ))
          ]
        ]
      ]
    ]
