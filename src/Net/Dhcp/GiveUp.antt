-- ===== src/Net/Dhcp/GiveUp.antt =====
-- kernel/src/net/dhcp.rs: what happens when no server answers.
use barry_os.Common.{
  ◌≡◌, true, Bool, suc, refl, ◌+◌, ◌≤◌, ◌<◌, arith, if-cases, zero, not, ltb, subst, length, clash,
  ap, false, ge→ltb, ◌-◌, leb, leb→le, ◌∙◌, leb→gt, ◌||◌,
}
use barry_os.Common.Words.{add32}
use barry_os.Net.Arp.{Ip}
use barry_os.Net.Wire.{sealed, Wire, ip_send, ip_send_broadcast}
use barry_os.Net.Udp.{Udp, send_from, hand_over, checksum, datagram}
use barry_os.Net.Ipv4.{same_ip, broadcast}
use barry_os.Net.Dhcp.{
  Dhcp, failed, in_progress, is_discovering, max_attempts, retry_ticks, send_message, send_discover,
  send_request, tick, ℕ, List,
}

hand_over-now :
    (w : Wire) (src dst : Ip) (dgram : List ℕ) → (hand_over w src dst dgram).1.now ≡ w.now
unfolding hand_over ip_send ip_send_broadcast
hand_over-now w src dst dgram =
    if-cases (λ (o : Bool × Wire). o.1.now ≡ w.now)
      (same_ip src (record { o0 = 0; o1 = 0; o2 = 0; o3 = 0 }) || same_ip dst broadcast) _ _
      (λ h. refl) (λ h. refl)

send_from-now :
    (u : Udp) (w : Wire) (src dst : Ip) (p q : ℕ) (bytes : List ℕ)
    → (send_from u w src dst p q bytes).2.now ≡ w.now
unfolding send_from
send_from-now u w src dst p q bytes =
    let P : Bool × Udp × Wire → Type 0 = λ o. o.2.now ≡ w.now in
    let ck = sealed (checksum src dst (datagram q p 0 bytes)) in
    let out = hand_over w src dst (datagram q p ck bytes) in
    let same = hand_over-now w src dst (datagram q p ck bytes) in
    if-cases P (ltb 1472 (8 + length bytes)) (false, u, w) _ (λ h. refl)
      λ h. if-cases P out.0 _ _ (λ k. same) (λ k. same)

-- A message is on its way, and the clock has not been turned back.
pub record IsAsking (d : Dhcp) (w : Wire) : Type 0 where
  pub asking : in_progress d.state ≡ true
  pub asked_before : d.last_send_tick ≤ w.now

-- The timer's interrupt at the end of one more second in which nothing arrives.
unfoldable pub silence : ℕ → Dhcp → Udp → Wire → Dhcp × Udp × Wire
silence zero d u w = (d, u, w)
silence (suc k) d u w =
    let (d', u', w') = tick d u (record w { now = w.now + retry_ticks }) in silence k d' u' w'

-- What such a tick does: it asks again, or gives up.
record IsRetried (d : Dhcp) (out : Dhcp × Udp × Wire) : Type 0 where
  asks : d.attempts + 1 < max_attempts → IsAsking out.0 out.2 × (out.0.attempts ≡ d.attempts + 1)
  fails : d.attempts + 1 ≡ max_attempts → out.0.state ≡ failed

asked_again :
    (d : Dhcp) (u : Udp) (w : Wire) (n : ℕ) (message : List ℕ)
    → in_progress d.state ≡ true
    → let (d', u', w') = send_message (record d { attempts = n }) u w message in
      IsAsking d' w' × (d'.attempts ≡ n)
unfolding send_message
asked_again d u w n message h =
    (record { asking = h; asked_before = omega (arith, send_from-now u w _ _ _ _ message) }, refl)

tick-IsRetried :
    (d : Dhcp) (u : Udp) (w : Wire)
    → IsAsking d w
    → IsRetried d (tick d u (record w { now = w.now + retry_ticks }))
unfolding tick send_discover send_request
tick-IsRetried d u w v =
    let later = record w { now = w.now + retry_ticks } in
    let n = add32 d.attempts 1 in
    if-cases (IsRetried d) (not (in_progress d.state)) _ _ (λ h. absurd (clash h (ap not v.asking)))
      λ h. rw (ge→ltb (later.now - d.last_send_tick) 100 (omega (arith, v.asked_before))) (
        if-cases (IsRetried d) (leb max_attempts n) _ _
          (λ g. record {
            asks = λ few. absurd (omega (arith, few, leb→le max_attempts n g));
            fails = λ e. refl;
          })
          λ g. record {
            asks = λ few.
                let e : n ≡ d.attempts + 1 = omega (arith, few) in
                if-cases
                  (λ (out : Dhcp × Udp × Wire).
                    IsAsking out.0 out.2 × (out.0.attempts ≡ d.attempts + 1))
                  (is_discovering d.state) _ _
                  (λ s. let (a, b) = asked_again d u later n _ v.asking in (a, b ∙ e))
                  λ s. let (a, b) = asked_again d u later n _ v.asking in (a, b ∙ e);
            fails = λ e. absurd (omega (arith, e, leb→gt max_attempts n g));
          })

-- If nothing arrives while a message waits for its answer, then after as many seconds as are left of the
-- four attempts the exchange has failed.
pub silence-failed :
    (k : ℕ) (d : Dhcp) (u : Udp) (w : Wire)
    → IsAsking d w
    → d.attempts + k + 1 ≡ max_attempts
    → (silence (k + 1) d u w).0.state ≡ failed
unfolding silence
silence-failed zero d u w v e = (tick-IsRetried d u w v).fails (omega arith)
silence-failed (suc k) d u w v e =
    let (d', u', w') = tick d u (record w { now = w.now + retry_ticks }) in
    let (v', e') = (tick-IsRetried d u w v).asks (omega arith) in
    subst (λ n. (silence n d u w).0.state ≡ failed) {x = suc (k + 1)} {y = suc k + 1} (omega arith)
      (silence-failed k d' u' w' v' (omega (arith, e')))
