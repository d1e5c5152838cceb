-- ===== src/Net/Tcp/Refine.antt =====
-- kernel/src/net/tcp.rs: no sequence of calls tells the receive ring from the list of the bytes it holds.
use barry_os.Common.{
  ℕ, List, min, Bool, ◌≡◌, length, if◌then◌else◌, [], ◌==◌, ◌-◌, ◌++◌, false, arith, ap₂, take, leb,
  drop, subst, ◌∷◌, sym, ap, ◌∙◌, Bool-cases, inl, refl, inr,
}
use barry_os.Net.Tcp.Ring.{Ring, rx_cap, rx_len, rx_release, rx_read_at, append_rx}
use barry_os.Net.Tcp.Stream.{IsRing, contents, length-contents, rx_read_at_lem, rx_release_lem}
use barry_os.Net.Tcp.Append.{append_rx_lem}

-- A call on the buffer: bytes arrive, are given back, or are looked at.
pub data Op : Type 0 where
  arrive : List ℕ → Op
  give_back : ℕ → Op
  look : ℕ → ℕ → Op

-- What a call returns: how many bytes were kept, whether the window is announced, or the bytes.
pub data Reply : Type 0 where
  kept : ℕ → Reply
  announced : Bool → Reply
  seen : List ℕ → Reply

unfoldable pub run : Ring → List Op → List Reply
run r [] = []
run r (arrive bytes ∷ ops) = let (n, r') = append_rx r bytes in kept n ∷ run r' ops
run r (give_back n ∷ ops) = let (told, r') = rx_release r n in announced told ∷ run r' ops
run r (look offset room ∷ ops) = seen (rx_read_at r offset room) ∷ run r ops

-- The same calls on a bounded list.
unfoldable pub run_list : List ℕ → List Op → List Reply
run_list q [] = []
run_list q (arrive bytes ∷ ops) =
    let n = min (length bytes) (rx_cap - length q) in kept n ∷ run_list (q ++ take n bytes) ops
run_list q (give_back n ∷ ops) =
    announced (if min n (length q) == 0 then false else leb rx_cap (length q))
    ∷ run_list (drop n q) ops
run_list q (look offset room ∷ ops) = seen (take room (drop offset q)) ∷ run_list q ops

rx_release_announce :
    (r : Ring) (n : ℕ)
    → (rx_release r n).0
      ≡ (if min n (length (contents r)) == 0 then false else leb rx_cap (length (contents r)))
unfolding rx_release
rx_release_announce r n =
    subst (λ k. (rx_release r n).0 ≡ (if min n k == 0 then false else leb rx_cap k))
      (sym (length-contents r))
      (elim (Bool-cases (min n (rx_len r) == 0)) [ inl h ↦ rw (h) refl | inr h ↦ rw (h) refl ])

-- A sequence of calls on a valid ring returns what the same calls return on the bounded list of the
-- bytes that it holds, the oldest first.
pub run_refines : (ops : List Op) (r : Ring) → IsRing r → run r ops ≡ run_list (contents r) ops
unfolding run run_list
run_refines [] r v = refl
run_refines (arrive bytes ∷ ops) r v =
    let (count, grown, valid) = append_rx_lem r bytes v in
    let n = min (length bytes) (rx_cap - length (contents r)) in
    let e : (append_rx r bytes).0 ≡ n = omega (arith, count, length-contents r) in
    ap₂ ◌∷◌ (ap kept e) (
      run_refines ops (append_rx r bytes).1 valid
      ∙ ap (λ q. run_list q ops) (grown ∙ ap (λ k. contents r ++ take k bytes) e))
run_refines (give_back n ∷ ops) r v =
    let (left, valid, told) = rx_release_lem r n v in
    ap₂ ◌∷◌ (ap announced (rx_release_announce r n))
      (run_refines ops (rx_release r n).1 valid ∙ ap (λ q. run_list q ops) left)
run_refines (look offset room ∷ ops) r v =
    ap₂ ◌∷◌ (ap seen (rx_read_at_lem r offset room)) (run_refines ops r v)
