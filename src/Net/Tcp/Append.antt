-- ===== src/Net/Tcp/Append.antt =====
-- kernel/src/net/tcp.rs: what `append_rx` adds to the stream.
use barry_os.Common.{
  ℕ, List, ◌+◌, length, ◌%◌, ◌≡◌, ◌≤◌, ◌++◌, min, arith, ◌-◌, length-append, list_ext, take, ◌∙◌,
  length-take, if-cases, dec_lt, leb, sym, leb→le, get_or-append_left, append-nil, ap, subst,
  get_or-append, refl,
}
use barry_os.Common.Words.{u32_mod, add32}
use barry_os.Net.Tcp.Ring.{Ring, rx_cap, rx_len, write_bytes, append_rx}
use barry_os.Net.Tcp.Stream.{
  IsRing, contents, length-contents, get_or-contents, write_bytes_other, write_bytes_at,
}

rx_len-tail :
    (r : Ring) (m : ℕ) (buf : ℕ → ℕ)
    → IsRing r
    → rx_len r + m ≤ rx_cap
    → rx_len (record r { buf = buf; tail = add32 r.tail m }) ≡ rx_len r + m
unfolding rx_len
rx_len-tail r m buf v h = omega (arith, v.head_word, v.tail_word, v.fits, h)

rx_len_distance : (r : Ring) → IsRing r → (r.head + rx_len r) % u32_mod ≡ r.tail
unfolding rx_len
rx_len_distance r v = omega (arith, v.head_word, v.tail_word)

append-contents :
    (r : Ring) (bs : List ℕ)
    → IsRing r
    → rx_len r + length bs ≤ rx_cap
    → contents (record r {
      buf = write_bytes r.buf (r.tail % rx_cap) 0 bs;
      tail = add32 r.tail (length bs);
    })
      ≡ contents r ++ bs
append-contents r bs v room =
    let at = r.tail % rx_cap in
    let buf' = write_bytes r.buf at 0 bs in
    let r' = record r { buf = buf'; tail = add32 r.tail (length bs) } in
    let more = rx_len-tail r (length bs) buf' v room in
    let now = length-contents r' in
    let old = length-contents r in
    let both = length-append (contents r) bs in
    let far = rx_len_distance r v in
    list_ext _ _ 0 (omega (arith, more, now, old, both)) λ j lt.
      get_or-contents r' j (omega (arith, now)) ∙ elim (dec_lt j (rx_len r)) [
        | yes h ↦
            write_bytes_other r.buf at 0 bs _
              (λ i below e. absurd (omega (arith, e, below, far, room, h)))
            ∙ sym (get_or-contents r j h)
            ∙ sym (get_or-append_left (contents r) bs j 0 (omega (arith, old)))
        | no h ↦
            let k = j - rx_len r in
            ap buf' {y = (at + (0 + k)) % rx_cap} (omega (arith, far, h))
            ∙ write_bytes_at r.buf at 0 bs k (omega (arith, now, more, h)) (omega arith)
            ∙ sym (get_or-append (contents r) bs j k 0 (omega (arith, old, h)))
      ]

-- Of the bytes that arrive, those that fit are kept, after what the ring held, and the others dropped.
pub append_rx_lem :
    (r : Ring) (bytes : List ℕ)
    → IsRing r
    → let (n, r') = append_rx r bytes in
      (n ≡ min (length bytes) (rx_cap - rx_len r))
      × (contents r' ≡ contents r ++ take n bytes)
      × IsRing r'
unfolding append_rx
append_rx_lem r bytes v =
    let n = min (length bytes) (rx_cap - rx_len r) in
    let kept = length-take n bytes in
    let kept' : length (take n bytes) ≡ n = omega (arith, kept) in
    if-cases
      (λ (out : ℕ × Ring).
        (out.0 ≡ n) × (contents out.1 ≡ contents r ++ take out.0 bytes) × IsRing out.1)
      (leb rx_cap (rx_len r)) (0, r) _
      (λ t. (omega (arith, leb→le _ _ t), sym (append-nil (contents r)), v))
      λ f. (
        refl,
        subst
            (λ k.
              contents (record r {
                buf = write_bytes r.buf (r.tail % rx_cap) 0 (take n bytes);
                tail = add32 r.tail k;
              })
              ≡ contents r ++ take n bytes)
            kept' (append-contents r (take n bytes) v (omega (arith, kept', v.fits))),
        record {
          head_word = v.head_word;
          tail_word = omega arith;
          fits = omega (arith, rx_len-tail r n _ v (omega (arith, v.fits)), v.fits);
        },
      )
