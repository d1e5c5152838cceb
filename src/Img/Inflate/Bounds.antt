-- ===== src/Img/Inflate/Bounds.antt =====
-- On any input the decompressor ends, within the limit that it is given: a kernel whose heap gives
-- nothing back must not be made to allocate without bound.
use barry_os.Img.Huffman.Total.{decode-IsShorter, IsWithin-trans}
use barry_os.Img.Outcome.{Ensures, Ensures-refuse, Ensures->>=, Ensures-weaken}
use barry_os.Img.Bits.Left.{
  IsReader, IsWithin, align-IsWithin, IsShorter, Took, take_bits_lem, skip-IsWithin,
}
use barry_os.Img.Inflate.{
  stored, copy_back, codes, Huff, Bits, copy_match, one_code, align, bits_left, le16, not_a_length,
  no_length, decode, not_complement, past_end, len_extra, too_large, take_bits, not_a_distance,
  dist_extra, before_start, len_base, dist_base, ok,
}
use barry_os.Common.{
  ℕ, List, length, ◌≤◌, take, ◌≡◌, drop, if-cases, ◌+◌, arith, ◌<◌, ltb, suc, leb, length-take,
  length-append, ◌++◌, get_or, ◌∷◌, [], leb→gt, zero, ◌==◌, ltb→ge, ◌-◌, not, bit_xor,
}

-- An output within the limit, and a reader that is not ahead.
abbrev pub Fits : ℕ → Bits → List ℕ × Bits → Type 0
Fits limit b p = (length p.0 ≤ limit) × IsWithin b p.1

length-stored : (n i : ℕ) (src : List ℕ) → length (take n (drop i src)) ≤ n
length-stored n i src = omega (arith, length-take n (drop i src))

pub stored-Fits :
    (b : Bits) (out : List ℕ) (limit : ℕ) → IsReader b → Ensures (Fits limit b) (stored b out limit)
unfolding stored
stored-Fits b out limit v =
    Ensures-refuse (Fits limit b) (ltb (length a.src) (a.at + 4)) no_length _ λ _.
      Ensures-refuse (Fits limit b) (not (bit_xor len 0xffff == le16 a.src (a.at + 2)))
        not_complement _
        λ _.
          Ensures-refuse (Fits limit b) (ltb (length a.src) (a.at + 4 + len)) past_end _ λ inside.
            Ensures-refuse (Fits limit b) (ltb limit (length out + len)) too_large
              (ok (out ++ take len (drop (a.at + 4) a.src), record a { at = a.at + 4 + len }))
              λ fits. (
                omega (
                  arith,
                  length-append out (take len (drop (a.at + 4) a.src)),
                  length-stored len (a.at + 4) a.src,
                  ltb→ge _ _ fits,
                ),
                IsWithin-trans w (
                    skip-IsWithin a (a.at + 4 + len) (omega arith) (ltb→ge _ _ inside)
                      w.reader.few),
              )
  where
    a : Bits
    a = align b

    len : ℕ
    len = le16 a.src a.at

    w : IsWithin b a
    w = align-IsWithin b v

length-copy_back : (k from : ℕ) (out : List ℕ) → length (copy_back k from out) ≡ length out + k
unfolding copy_back
length-copy_back zero from out = omega arith
length-copy_back (suc k) from out = omega (
  arith,
  length-copy_back k (from + 1) (out ++ get_or out from 0 ∷ []),
  length-append out (get_or out from 0 ∷ []),
)

-- The output after the copy of a match, from the extra bits of its length and distance.
abbrev copied : ℕ → ℕ → ℕ → ℕ → List ℕ → List ℕ
copied li x dsym y out =
    copy_back (get_or len_base li 0 + x) (length out - (get_or dist_base dsym 0 + y)) out

module _ (limit : ℕ) (dist : Huff) where
  copy_match-Fits :
      (li : ℕ) (b : Bits) (out : List ℕ)
      → IsReader b
      → Ensures (Fits limit b) (copy_match li b out dist limit)
  unfolding copy_match
  copy_match-Fits li b out v = Ensures-refuse (Fits limit b) (leb 29 li) not_a_length _ λ _.
      Ensures->>= (Took b (get_or len_extra li 0)) (Fits limit b)
        (take_bits b (get_or len_extra li 0)) _ (take_bits_lem b (get_or len_extra li 0) v)
        λ p took.
          Ensures->>= (λ (q : ℕ × Bits). IsShorter p.1 q.1) (Fits limit b) (decode dist p.1) _
            (decode-IsShorter dist p.1 took.0)
            λ q shorter. Ensures-refuse (Fits limit b) (leb 30 q.0) not_a_distance _ λ _.
              Ensures->>= (Took q.1 (get_or dist_extra q.0 0)) (Fits limit b)
                (take_bits q.1 (get_or dist_extra q.0 0)) _
                (take_bits_lem q.1 (get_or dist_extra q.0 0) shorter.reader)
                λ r last.
                  Ensures-refuse (Fits limit b) (ltb (length out) (get_or dist_base q.0 0 + r.0))
                    before_start _
                    λ _.
                      Ensures-refuse (Fits limit b)
                        (ltb limit (length out + (get_or len_base li 0 + p.0))) too_large
                        (ok (copied li p.0 q.0 r.0 out, r.1))
                        λ fits. (
                          omega (
                            arith,
                            ltb→ge _ _ fits,
                            length-copy_back (get_or len_base li 0 + p.0)
                                (length out - (get_or dist_base q.0 0 + r.0)) out,
                          ),
                          record {
                            reader = last.0;
                            fewer = omega (arith, last.1, shorter.fewer, took.1);
                          },
                        )

  one_code-Fits :
      (sym : ℕ) (b : Bits) (out : List ℕ)
      → IsReader b
      → Ensures (Fits limit b) (one_code sym b out dist limit)
  unfolding one_code
  one_code-Fits sym b out v =
      if-cases (Ensures (Fits limit b)) (ltb sym 256) _ _
        (λ literal.
          if-cases (Ensures (Fits limit b)) (leb limit (length out)) _ _ (λ full. tt)
            (λ room. (
              omega (arith, length-append out (sym ∷ []), leb→gt _ _ room),
              record { reader = v; fewer = omega arith },
            )))
        (λ length_symbol. copy_match-Fits (sym - 257) b out v)

pub codes-Fits :
    (fuel : ℕ) (b : Bits) (out : List ℕ) (lit dist : Huff) (limit : ℕ)
    → IsReader b
    → length out ≤ limit
    → bits_left b < fuel
    → Ensures (Fits limit b) (codes fuel b out lit dist limit)
unfolding codes
codes-Fits zero b out lit dist limit v h enough = absurd (omega arith)
codes-Fits (suc fuel) b out lit dist limit v h enough =
    Ensures->>= (λ (p : ℕ × Bits). IsShorter b p.1) (Fits limit b) (decode lit b) _
      (decode-IsShorter lit b v)
      λ p shorter.
        if-cases (Ensures (Fits limit b)) (p.0 == 256) _ _
          (λ end. (h, record { reader = shorter.reader; fewer = omega (arith, shorter.fewer) }))
          (λ more.
            Ensures->>= (Fits limit p.1) (Fits limit b) (one_code p.0 p.1 out dist limit) _
              (one_code-Fits limit dist p.0 p.1 out shorter.reader)
              λ q fits.
                Ensures-weaken (Fits limit q.1) (Fits limit b) (codes fuel q.1 q.0 lit dist limit)
                  (codes-Fits fuel q.1 q.0 lit dist limit fits.1.reader fits.0
                    (omega (arith, fits.1.fewer, shorter.fewer)))
                  (λ r last. (
                    last.0,
                    record {
                      reader = last.1.reader;
                      fewer = omega (arith, last.1.fewer, fits.1.fewer, shorter.fewer);
                    },
                  )))
