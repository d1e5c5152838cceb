-- ===== src/Net/Tcp/GiveUp.antt =====
-- kernel/src/net/tcp.rs: a peer that does not answer is given up.
use barry_os.Net.Ipv4.{proto_tcp}
use barry_os.Common.Words.{add32}
use barry_os.Net.Tcp.Timer.{tick, send_again, resend, retry_ticks, max_retries, count_retry}
use barry_os.Common.{
  ℕ, Bool, ◌≡◌, ◌≤◌, All, List, true, length, suc, arith, ◌⊎◌, ap, ◌%◌, ◌≢◌, refl, ◌+◌, ◌*◌, get_or,
  zero, All-get_or, ◌<◌, ◌∙◌, subst, Bool-cases, sym, inl, false, if-cases, [], ◌==◌, inr, clash,
  ne→==, ge→ltb, lt→ltb, ◌-◌, not,
}
use barry_os.Net.Arp.{u32_to_ip}
use barry_os.Net.Wire.{Wire, sealed, our_ip, ip_send}
use barry_os.Net.Wire.Link.{IsUp, ip_send-IsSent, IsSent}
use barry_os.Net.Tcp.Block.{
  Tcp, max_seg, emit, emit_slot, is_syn_sent, payload_of, slot_at, no_slot, checksum, failed,
  segment, in_flight, IsShort, length-bytes_from,
}

-- There is something to send again, and the clock has not been turned back.
pub record IsWaiting (t : Tcp) (w : Wire) : Type 0 where
  pub active : t.active ≡ true
  pub sized : All IsShort t.slots
  pub pending : (is_syn_sent t.state ≡ true) ⊎ (t.tx_head ≢ t.tx_tail)
  pub sent_before : t.last_send ≤ w.now
  pub up : IsUp w (u32_to_ip t.remote_ip)

-- What sending again does: the block is the same but for the time, and the link stays up.
record IsResent (t : Tcp) (w : Wire) (out : Bool × Tcp × Wire) : Type 0 where
  counts : out.0 ≡ true
  time : ℕ
  block : out.1 ≡ record t { last_send = time }
  before : time ≤ w.now
  link : IsUp out.2 (u32_to_ip t.remote_ip)
  clock : out.2.now ≡ w.now

emit-IsResent :
    (t : Tcp) (w : Wire) (seq flags : ℕ) (payload : List ℕ)
    → IsUp w (u32_to_ip t.remote_ip)
    → length payload ≤ max_seg
    → IsResent t w (emit t w seq flags payload)
unfolding emit
emit-IsResent t w seq flags payload up short =
    let dst = u32_to_ip t.remote_ip in
    let ck = sealed (checksum (our_ip w) dst (segment t seq flags payload 0)) in
    let seg = segment t seq flags payload ck in
    let out : IsSent w dst (ip_send w dst proto_tcp seg) =
      ip_send-IsSent w dst proto_tcp seg up (omega arith) in
    record {
      counts = out.ok;
      time = (ip_send w dst proto_tcp seg).1.now;
      block = refl;
      before = omega (arith, out.same_time);
      link = out.up;
      clock = out.same_time;
    }

emit_slot-IsResent :
    (t : Tcp) (w : Wire) (i : ℕ)
    → IsUp w (u32_to_ip t.remote_ip)
    → All IsShort t.slots
    → IsResent t w (emit_slot t w i)
unfolding emit_slot slot_at payload_of
emit_slot-IsResent t w i up sized = emit-IsResent t w _ _ _ up (
    omega (
      arith,
      length-bytes_from t.tx_buf (i % 8 * max_seg) (get_or t.slots (i % 8) no_slot).len,
      All-get_or IsShort t.slots (i % 8) no_slot (omega arith) sized,
    ))

-- After one segment has gone out, the rest does.
IsResent-trans :
    (t : Tcp) (w : Wire) (out more : Bool × Tcp × Wire)
    → IsResent t w out
    → IsResent out.1 out.2 more
    → IsResent t w more
IsResent-trans t w out more a b = record {
  counts = b.counts;
  time = b.time;
  block = b.block ∙ ap (λ (u : Tcp). record u { last_send = b.time }) a.block;
  before = omega (arith, b.before, a.clock);
  link = subst (λ (u : Tcp). IsUp more.2 (u32_to_ip u.remote_ip)) a.block b.link;
  clock = b.clock ∙ a.clock;
}

resend-IsResent :
    (t : Tcp) (w : Wire) (k i sent : ℕ)
    → IsUp w (u32_to_ip t.remote_ip)
    → All IsShort t.slots
    → t.last_send ≤ w.now
    → IsResent t w (resend t w k i sent)
unfolding resend
resend-IsResent t w zero i sent up sized before = record {
  counts = refl;
  time = t.last_send;
  block = refl;
  before = before;
  link = up;
  clock = refl;
}
resend-IsResent t w (suc k) i sent up sized before =
    let (ok, t', w') = emit_slot t w i in
    let first = emit_slot-IsResent t w i up sized in
    let more =
      resend-IsResent t' w' k (add32 i 1) (sent + 1)
        (subst (λ (u : Tcp). IsUp w' (u32_to_ip u.remote_ip)) (sym first.block) first.link)
        (subst (λ (u : Tcp). All IsShort u.slots) (sym first.block) sized)
        (subst (λ (u : Tcp). u.last_send ≤ w'.now) (sym first.block)
          (omega (arith, first.before, first.clock))) in
    if-cases (IsResent t w) (i == t.tx_tail) _ _
      (λ h. record {
        counts = refl;
        time = t.last_send;
        block = refl;
        before = before;
        link = up;
        clock = refl;
      })
      λ h. rw (first.counts) (IsResent-trans t w (emit_slot t w i) _ first more)

send_again-IsResent : (t : Tcp) (w : Wire) → IsWaiting t w → IsResent t w (send_again t w)
unfolding send_again
send_again-IsResent t w v = elim (Bool-cases (is_syn_sent t.state)) [
  | inl s ↦ rw (s) (emit-IsResent t w t.iss 0x02 [] v.up (omega arith))
  | inr s ↦ elim v.pending [
    | inl z ↦ absurd (clash z s)
    | inr ne ↦
        rw (s, ne→== _ _ ne)
          (resend-IsResent t w (in_flight t) t.tx_head 0 v.up v.sized v.sent_before)
  ]
]

-- The timer's interrupt at the end of one more retry interval.
unfoldable pub wait : ℕ → Tcp → Wire → Tcp × Wire
wait zero t w = (t, w)
wait (suc k) t w = let (t', w') = tick t (record w { now = w.now + retry_ticks }) in wait k t' w'

-- What a tick does when the interval is over: the attempt is counted, or the connection is given up.
record IsRetried (t : Tcp) (out : Tcp × Wire) : Type 0 where
  waits : t.retries < max_retries → IsWaiting out.0 out.1 × (out.0.retries ≡ t.retries + 1)
  fails : t.retries ≡ max_retries → (out.0.state ≡ failed) × (out.0.active ≡ false)

count_retry-IsRetried : (t : Tcp) (w : Wire) → IsWaiting t w → IsRetried t (count_retry t, w)
unfolding count_retry
count_retry-IsRetried t w v = record {
  waits = λ h.
      let e : add32 t.retries 1 ≡ t.retries + 1 = omega arith in
      rw (ge→ltb 5 (add32 t.retries 1) (omega arith)) (
        (
          record {
            active = v.active;
            sized = v.sized;
            pending = v.pending;
            sent_before = v.sent_before;
            up = v.up;
          },
          e,
        ));
  fails = λ h. rw (lt→ltb 5 (add32 t.retries 1) (omega (arith, h))) ((refl, refl));
}

tick-IsRetried :
    (t : Tcp) (w : Wire)
    → IsWaiting t w
    → IsRetried t (tick t (record w { now = w.now + retry_ticks }))
unfolding tick
tick-IsRetried t w v =
    let later = record w { now = w.now + retry_ticks } in
    let v' : IsWaiting t later = record {
      active = v.active;
      sized = v.sized;
      pending = v.pending;
      sent_before = omega (arith, v.sent_before);
      up = record {
        mac = v.up.mac;
        hop_mac = v.up.hop_mac;
        has_mac = v.up.has_mac;
        resolved = v.up.resolved;
        takes = v.up.takes;
      };
    } in
    let (counts, t', w') = send_again t later in
    let again = send_again-IsResent t later v' in
    let sent = record t { last_send = again.time } in
    let done = count_retry-IsRetried sent w' (record {
      active = v.active;
      sized = v.sized;
      pending = v.pending;
      sent_before = omega (arith, again.before, again.clock);
      up = again.link;
    }) in
    if-cases (IsRetried t) (not t.active) _ _ (λ h. absurd (clash h (ap not v.active)))
      λ h.
        rw (again.counts, ge→ltb (later.now - t.last_send) 100 (omega (arith, v.sent_before)))
          (subst (λ (u : Tcp). IsRetried t (count_retry u, w')) (sym again.block)
            (record { waits = done.waits; fails = done.fails }))

-- A connection on which something waits for an answer, over a link that takes every frame and
-- knows the next hop, and of which the peer sends nothing: after as many intervals of a second as
-- are left of the five retransmissions, and one more, it has failed and is no longer active.
pub wait-failed :
    (k : ℕ) (t : Tcp) (w : Wire)
    → IsWaiting t w
    → t.retries + k ≡ max_retries
    → ((wait (k + 1) t w).0.state ≡ failed) × ((wait (k + 1) t w).0.active ≡ false)
unfolding wait
wait-failed zero t w v e = (tick-IsRetried t w v).fails (omega arith)
wait-failed (suc k) t w v e =
    let (t', w') = tick t (record w { now = w.now + retry_ticks }) in
    let (v', e') = (tick-IsRetried t w v).waits (omega arith) in
    subst (λ n. ((wait n t w).0.state ≡ failed) × ((wait n t w).0.active ≡ false)) {x = suc (k + 1)}
      {y = suc k + 1} (omega arith) (wait-failed k t' w' v' (omega (arith, e')))
