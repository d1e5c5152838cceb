-- ===== src/Net/Tcp/Order.antt =====
-- kernel/src/net/tcp.rs: only what comes next from the peer joins the stream.
use barry_os.Common.Words.{add32, add64}
use barry_os.Common.{
  ◌≡◌, List, ℕ, true, if-cases, [], ◌++◌, subst, if◌then◌else◌, refl, sym, not, ◌&&◌, ap, ◌∙◌, ◌==◌,
  take, append-nil, ◌-◌, length, min, suc, ◌∷◌, arith, zero, ==→eq, Bool-cases, false, inl, clash,
  inr,
}
use barry_os.Common.{none, some}
use barry_os.Net.Arp.{Ip}
use barry_os.Net.Wire.{Wire}
use barry_os.Net.Tcp.Ring.{Ring, rx_cap}
use barry_os.Net.Tcp.Stream.{IsRing, contents, length-contents}
use barry_os.Net.Tcp.Append.{append_rx_lem}
use barry_os.Net.Tcp.Block.{
  Tcp, State, emit, send_ack, is_open, closed, syn_sent, established, fin_wait, fin_sent, failed,
  is_fin_wait, is_closing, is_syn_sent,
}
use barry_os.Net.Tcp.Input.{
  Segment, parse, has_fin, has_rst, has_syn, has_ack, take_ack, ack_advance, take_payload, take_fin,
  settle, fin_acked, on_open, on_syn_sent, on_segment, handle_segment, handle,
}

-- The bytes of a segment that join the stream: as many as there is room for, if the connection is open
-- and the segment comes next.
abbrev pub joined : Tcp → Segment → List ℕ
joined t seg =
    if not (has_rst seg) && is_open t.state && seg.seq == t.rcv_nxt
    then take (rx_cap - length (contents t.rx)) seg.payload
    else []

-- The same for what arrives in a datagram.
abbrev pub arrived : Tcp → Ip → List ℕ → List ℕ
arrived t src body = elim (parse t src body) [ none ↦ [] | some seg ↦ joined t seg ]

-- The stream grows by some bytes.
record Grows (r : Ring) (bs : List ℕ) (r' : Ring) : Type 0 where
  valid : IsRing r'
  grown : contents r' ≡ contents r ++ bs

Grows-same : (r r' : Ring) → IsRing r → r' ≡ r → Grows r [] r'
Grows-same r r' v e = record {
  valid = subst IsRing (sym e) v;
  grown = ap contents e ∙ sym (append-nil (contents r));
}

pub send_ack-rx : (t : Tcp) (w : Wire) → (send_ack t w).0.rx ≡ t.rx
unfolding send_ack emit
send_ack-rx t w =
    if-cases (λ (o : Tcp × Wire). o.0.rx ≡ t.rx) (is_open t.state) _ _ (λ h. refl) λ h. refl

take_ack-rx :
    (t : Tcp) (seg : Segment)
    → ((take_ack t seg).rx ≡ t.rx)
      × ((take_ack t seg).state ≡ t.state)
      × ((take_ack t seg).rcv_nxt ≡ t.rcv_nxt)
unfolding take_ack ack_advance
take_ack-rx t seg =
    if-cases (λ (o : Tcp). (o.rx ≡ t.rx) × (o.state ≡ t.state) × (o.rcv_nxt ≡ t.rcv_nxt)) _ _ t
      (λ h. (refl, refl, refl)) λ h. (refl, refl, refl)

settle-rx : (t : Tcp) → (settle t).rx ≡ t.rx
unfolding settle
settle-rx t =
    if-cases (λ (o : Tcp). o.rx ≡ t.rx) (is_fin_wait t.state && fin_acked t) _ t (λ h. refl)
      (λ h. refl)

take_fin-rx : (t : Tcp) (w : Wire) → (take_fin t w).0.rx ≡ t.rx
unfolding take_fin
take_fin-rx t w =
    let kept = send_ack-rx (record t { peer_closed = true; rcv_nxt = add32 t.rcv_nxt 1 }) w in
    if-cases (λ (o : Tcp × Wire). o.0.rx ≡ t.rx) (is_closing t.state) _ _ (λ h. kept) (λ h. kept)

take_nil : {A : Type 0} (n : ℕ) → take {A = A} n [] ≡ []
take_nil zero = refl
take_nil (suc n) = refl

nil_of_length : {A : Type 0} (xs : List A) → length xs ≡ 0 → xs ≡ []
nil_of_length [] h = refl
nil_of_length (x ∷ xs) h = absurd (omega arith)

take-min : {A : Type 0} (xs : List A) (n : ℕ) → take (min (length xs) n) xs ≡ take n xs
take-min [] n = take_nil (min 0 n) ∙ sym (take_nil n)
take-min (x ∷ xs) zero = ap (λ k. take k (x ∷ xs)) {y = 0} (omega arith)
take-min (x ∷ xs) (suc n) =
    ap (λ k. take k (x ∷ xs)) {x = min (suc (length xs)) (suc n)} {y = suc (min (length xs) n)}
      (omega arith)
    ∙ ap (◌∷◌ x) (take-min xs n)

-- The bytes of a segment that are kept on an open connection.
abbrev pub next_bytes : Tcp → Segment → List ℕ
next_bytes t seg =
    if seg.seq == t.rcv_nxt then take (rx_cap - length (contents t.rx)) seg.payload else []

take_payload-Grows :
    (t : Tcp) (seg : Segment) → IsRing t.rx → Grows t.rx (next_bytes t seg) (take_payload t seg).rx
unfolding take_payload
take_payload-Grows t seg v =
    let (count, grown, valid) = append_rx_lem t.rx seg.payload v in
    let room = rx_cap - length (contents t.rx) in
    if-cases (λ (o : Tcp). Grows t.rx (next_bytes t seg) o.rx) (length seg.payload == 0) t _
      (λ h.
        let none_left = nil_of_length seg.payload (==→eq _ _ h) in
        subst (λ bs. Grows t.rx bs t.rx)
          (if-cases (λ bs. [] ≡ bs) (seg.seq == t.rcv_nxt) (take room seg.payload) []
            (λ e. sym (ap (take room) none_left ∙ take_nil room)) (λ e. refl))
          (Grows-same t.rx t.rx v refl))
      λ h. elim (Bool-cases (seg.seq == t.rcv_nxt)) [
        | inl e ↦ rw (e) (record {
          valid = valid;
          grown =
              grown
              ∙ ap (λ n. contents t.rx ++ take n seg.payload) {y = min (length seg.payload) room}
                  (omega (arith, count, length-contents t.rx))
              ∙ ap (◌++◌ (contents t.rx)) (take-min seg.payload room);
        })
        | inr e ↦ rw (e) (Grows-same t.rx t.rx v refl)
      ]

on_open-Grows :
    (t : Tcp) (w : Wire) (seg : Segment)
    → IsRing t.rx
    → Grows t.rx (next_bytes t seg) (on_open t w seg).0.rx
unfolding on_open
on_open-Grows t w seg v =
    let kept = take_payload t seg in
    let P = λ (o : Tcp × Wire). Grows t.rx (next_bytes t seg) o.0.rx in
    let grows = take_payload-Grows t seg v in
    let carry : (r : Ring) → r ≡ kept.rx → Grows t.rx (next_bytes t seg) r =
      λ r e. subst (Grows t.rx (next_bytes t seg)) {y = r} (sym e) grows in
    if-cases P (has_fin seg) _ _ (λ h. carry (take_fin kept w).0.rx (take_fin-rx kept w))
      λ h.
        if-cases P (length seg.payload == 0) _ _ (λ z. carry (settle kept).rx (settle-rx kept))
          λ z.
            carry (settle (send_ack kept w).0).rx
              (settle-rx (send_ack kept w).0 ∙ send_ack-rx kept w)

on_syn_sent-rx : (t : Tcp) (w : Wire) (seg : Segment) → (on_syn_sent t w seg).0.rx ≡ t.rx
unfolding on_syn_sent
on_syn_sent-rx t w seg =
    if-cases (λ (o : Tcp × Wire). o.0.rx ≡ t.rx) (has_syn seg && has_ack seg) _ (t, w)
      (λ h. send_ack-rx _ w) (λ h. refl)

not_open : (s : State) → is_syn_sent s ≡ true → is_open s ≡ false
not_open closed h = absurd (clash h refl)
not_open syn_sent h = refl
not_open established h = absurd (clash h refl)
not_open fin_wait h = absurd (clash h refl)
not_open fin_sent h = absurd (clash h refl)
not_open failed h = absurd (clash h refl)

on_segment-Grows :
    (t : Tcp) (w : Wire) (seg : Segment)
    → IsRing t.rx
    → Grows t.rx (if is_open t.state then next_bytes t seg else []) (on_segment t w seg).0.rx
unfolding on_segment
on_segment-Grows t w seg v = elim (Bool-cases (is_syn_sent t.state)) [
  | inl s ↦
      rw (s, not_open t.state s)
        (Grows-same t.rx (on_syn_sent t w seg).0.rx v (on_syn_sent-rx t w seg))
  | inr s ↦ elim (Bool-cases (is_open t.state)) [
    | inl o ↦ rw (s, o) (on_open-Grows t w seg v)
    | inr o ↦ rw (s, o) (Grows-same t.rx t.rx v refl)
  ]
]

-- On a segment that is no reset, what `on_segment` keeps is what joins the stream.
joined_open :
    (t t' : Tcp) (seg : Segment)
    → has_rst seg ≡ false
    → t'.rx ≡ t.rx
    → t'.state ≡ t.state
    → t'.rcv_nxt ≡ t.rcv_nxt
    → (if is_open t'.state then next_bytes t' seg else []) ≡ joined t seg
joined_open t t' seg h er es en = elim (Bool-cases (is_open t.state)) [
  | inl o ↦ rw (h, es, en, er, o) refl
  | inr o ↦ rw (h, es, en, er, o) refl
]

joined_rst : (t : Tcp) (seg : Segment) → has_rst seg ≡ true → joined t seg ≡ []
joined_rst t seg h = rw (h) refl

handle_segment-Grows :
    (t : Tcp) (w : Wire) (seg : Segment)
    → IsRing t.rx
    → Grows t.rx (joined t seg) (handle_segment t w seg).0.rx
unfolding handle_segment
handle_segment-Grows t w seg v =
    let counted = record t { segments_in = add64 t.segments_in 1 } in
    let (er, es, en) = take_ack-rx counted seg in
    let t' = take_ack counted seg in
    if-cases (λ (o : Tcp × Wire). Grows t.rx (joined t seg) o.0.rx) (has_rst seg) _ _
      (λ h.
        subst (λ bs. Grows t.rx bs t.rx) (sym (joined_rst t seg h)) (Grows-same t.rx t.rx v refl))
      λ h.
        subst (λ bs. Grows t.rx bs (on_segment t' w seg).0.rx) (joined_open t t' seg h er es en)
          (subst
            (λ r.
              Grows r (if is_open t'.state then next_bytes t' seg else [])
                (on_segment t' w seg).0.rx)
            er (on_segment-Grows t' w seg (subst IsRing (sym er) v)))

pub handle-arrived :
    (t : Tcp) (w : Wire) (src : Ip) (body : List ℕ)
    → IsRing t.rx
    → let (t', w') = handle t w src body in
      IsRing t'.rx × (contents t'.rx ≡ contents t.rx ++ arrived t src body)
unfolding handle
handle-arrived t w src body v =
    elim (parse t src body)
      as (λ o.
        let (t', w') = (elim o as (λ p. Tcp × Wire) [
          | none ↦ (t, w)
          | some seg ↦ handle_segment t w seg
        ]) in
        IsRing t'.rx
        × (contents t'.rx
            ≡ contents t.rx ++ (elim o as (λ p. List ℕ) [ none ↦ [] | some seg ↦ joined t seg ]))) [
              | none ↦ (v, sym (append-nil (contents t.rx)))
              | some seg ↦ let grows = handle_segment-Grows t w seg v in (grows.valid, grows.grown)
            ]
