-- ===== src/Net/Tcp/Queue.antt =====
-- kernel/src/net/tcp.rs: the transmit queue as the list of the segments that are not acknowledged.
pub mod Enqueue
pub mod Acked
use barry_os.Net.Wire.{Wire}
use barry_os.Common.{
  ℕ, ◌≤◌, List, ◌<◌, ◌+◌, Bool, ◌%◌, ◌⊎◌, length, [], ◌≡◌, suc, ◌++◌, ap₂, ◌∷◌, All, inl, subst,
  arith, zero, ◌∙◌, refl, ap, eq→==, ne→==, false, ◌≢◌, ◌*◌, get_or, All-get_or, set,
  get_or-set_self, get_or-set_ne, length-set, ◌&&◌, All-set, if◌then◌else◌, not, ◌==◌, leb, ltb,
  Bool-cases, inr, dec_le, lt→ltb, gt→leb, dec_lt, ge→ltb, le→leb, clash,
}
use barry_os.Common.Words.{u32_mod, add32}
use barry_os.Net.Tcp.Ring.{put}
use barry_os.Net.Tcp.Block.{
  Tcp, Slot, max_seg, tx_slots, in_flight, payload_of, bytes_from, slot_at, no_slot, store, enqueue,
  queue_slot, is_established, emit_slot, send, emit, IsShort,
}

-- A queued segment.
pub record Packet : Type 0 where
  pub seq : ℕ
  pub fin : Bool
  pub payload : List ℕ

unfoldable pub packet_at : Tcp → ℕ → Packet
packet_at t i =
    let s = slot_at t i in
    record { seq = s.seq; fin = s.fin; payload = payload_of t (i % tx_slots) s.len }

-- `n` segments from position `i` on.
unfoldable pub packets : Tcp → ℕ → ℕ → List Packet
packets t i zero = []
packets t i (suc n) = packet_at t i ∷ packets t (i + 1) n

-- The segments that are sent and not acknowledged, the oldest first.
abbrev pub outstanding : Tcp → List Packet
outstanding t = packets t t.tx_head (in_flight t)

-- The positions are words, at most eight segments are queued, and each has a slot that it fits in.
pub record IsQueue (t : Tcp) : Type 0 where
  pub head_word : t.tx_head < u32_mod
  pub tail_word : t.tx_tail < u32_mod
  pub few : in_flight t ≤ tx_slots
  pub slotted : length t.slots ≡ tx_slots
  pub short : All IsShort t.slots

pub packets_ext :
    (t t' : Tcp) (i n : ℕ)
    → ((j : ℕ) → j < n → packet_at t (i + j) ≡ packet_at t' (i + j))
    → packets t i n ≡ packets t' i n
unfolding packets
packets_ext t t' i zero h = refl
packets_ext t t' i (suc n) h =
    ap₂ ◌∷◌
      (subst (λ k. packet_at t k ≡ packet_at t' k) {x = i + 0} (omega arith) (h 0 (omega arith)))
      (packets_ext t t' (i + 1) n (λ j lt.
        subst (λ k. packet_at t k ≡ packet_at t' k) {x = i + suc j} {y = i + 1 + j} (omega arith)
          (h (suc j) (omega arith))))

pub packets_snoc :
    (t : Tcp) (i n : ℕ) → packets t i (n + 1) ≡ packets t i n ++ packet_at t (i + n) ∷ []
unfolding packets
packets_snoc t i zero = ap (λ k. packet_at t k ∷ []) {x = i} (omega arith)
packets_snoc t i (suc n) =
    ap (packets t i) {x = suc n + 1} {y = suc (n + 1)} (omega arith)
    ∙ ap (◌∷◌ (packet_at t i)) (packets_snoc t (i + 1) n)
    ∙ ap (λ k. packet_at t i ∷ (packets t (i + 1) n ++ packet_at t k ∷ [])) {x = i + 1 + n}
        (omega arith)
