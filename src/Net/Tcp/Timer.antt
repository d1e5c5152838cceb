-- ===== src/Net/Tcp/Timer.antt =====
-- kernel/src/net/tcp.rs: the timer, which sends again and gives up.
use barry_os.Common.{ℕ, Bool, if◌then◌else◌, [], ltb, true, not, suc, false, ◌-◌, ◌==◌, ◌+◌, zero}
use barry_os.Common.Words.{add32, add64}
use barry_os.Net.Wire.{Wire}
use barry_os.Net.Tcp.Block.{Tcp, emit, emit_slot, in_flight, is_syn_sent, failed}

abbrev pub retry_ticks : ℕ
retry_ticks = 100

abbrev pub max_retries : ℕ
max_retries = 5

-- The loop over the queue from position `i` on; whether the attempt counts, which it does not when the
-- first segment did not go out.
unfoldable pub resend : Tcp → Wire → ℕ → ℕ → ℕ → Bool × Tcp × Wire
resend t w zero i sent = (true, t, w)
resend t w (suc k) i sent =
    let (ok, t', w') = emit_slot t w i in
    let more = resend t' w' k (add32 i 1) (sent + 1) in
    if i == t.tx_tail then (true, t, w) else if ok then more else (not (sent == 0), t', w')

-- Everything outstanding goes again.
unfoldable pub send_again : Tcp → Wire → Bool × Tcp × Wire
send_again t w =
    if is_syn_sent t.state
    then emit t w t.iss 0x02 []
    else if t.tx_head == t.tx_tail
    then (false, t, w)
    else resend t w (in_flight t) t.tx_head 0

-- An attempt that counts.
unfoldable pub count_retry : Tcp → Tcp
count_retry t =
    let n = add32 t.retries 1 in
    if ltb max_retries n
    then record t { retries = n; state = failed; active = false }
    else record t { retries = n; retransmits = add64 t.retransmits 1 }

unfoldable pub tick : Tcp → Wire → Tcp × Wire
tick t w =
    let (counts, t', w') = send_again t w in
    if not t.active
    then (t, w)
    else if ltb (w.now - t.last_send) retry_ticks
    then (t, w)
    else if counts
    then (count_retry t', w')
    else (t', w')
