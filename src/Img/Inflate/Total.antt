-- ===== src/Img/Inflate/Total.antt =====
-- Every stream is decompressed or refused, within the limit.
use barry_os.Img.Inflate.Described.{dynamic-IsWithin}
use barry_os.Img.Inflate.Bounds.{Fits, codes-Fits, stored-Fits}
use barry_os.Img.Huffman.Total.{Always, build-Always, IsWithin-trans}
use barry_os.Img.Bits.Left.{IsReader, new-IsReader, Took, take_bits_lem, IsWithin}
use barry_os.Img.Outcome.{Ensures, ◌>>=◌, Ensures->>=, Ensures-refuse, Ensures-weaken}
use barry_os.Img.Inflate.{
  block, fixed_distance, fixed_literal, blocks, inflate, zlib, Bits, stuck, bits_left, new, ok,
  codes, take_bits, no_header, dynamic, Huff, not_deflate, u16_mod, bad_check, preset_dictionary,
}
use barry_os.Common.{
  ℕ, List, length, ◌≢◌, ◌≤◌, suc, ◌<◌, ◌≡◌, replicate, [], arith, ◌++◌, ltb, not, bit_and, if-cases,
  get_or, ◌==◌, zero, ◌*◌, ◌+◌, ◌%◌, drop, subst,
}

fixed_literal-Always : Ensures Always fixed_literal
unfolding fixed_literal
fixed_literal-Always =
    build-Always (replicate 144 8 ++ (replicate 112 9 ++ (replicate 24 7 ++ replicate 8 8)))

fixed_distance-Always : Ensures Always fixed_distance
unfolding fixed_distance
fixed_distance-Always = build-Always (replicate 30 5)

block-Fits :
    (kind : ℕ) (b : Bits) (out : List ℕ) (limit : ℕ)
    → IsReader b
    → length out ≤ limit
    → Ensures (Fits limit b) (block kind b out limit)
unfolding block
block-Fits kind b out limit v h =
    if-cases (Ensures (Fits limit b)) (kind == 0) _ _ (λ _. stored-Fits b out limit v)
      λ _.
        if-cases (Ensures (Fits limit b)) (kind == 1) _ _ (λ _. fixed)
          λ _. if-cases (Ensures (Fits limit b)) (kind == 2) _ _ (λ _. described) (λ _. tt)
  where
    fixed : Ensures (Fits limit b) (
        fixed_literal >>= λ lit.
        fixed_distance >>= λ dist. codes (suc (bits_left b)) b out lit dist limit)
    fixed = Ensures->>= Always (Fits limit b) fixed_literal _ fixed_literal-Always λ lit _.
        Ensures->>= Always (Fits limit b) fixed_distance _ fixed_distance-Always
          λ dist _. codes-Fits (suc (bits_left b)) b out lit dist limit v h (omega arith)

    described :
        Ensures
          (Fits limit b)
          (dynamic b >>= λ p. codes (suc (bits_left b)) p.1 out p.0.0 p.0.1 limit)
    described =
        Ensures->>= (λ (p : (Huff × Huff) × Bits). IsWithin b p.1) (Fits limit b) (dynamic b) _
          (dynamic-IsWithin b v)
          λ p w.
            Ensures-weaken (Fits limit p.1) (Fits limit b)
              (codes (suc (bits_left b)) p.1 out p.0.0 p.0.1 limit)
              (codes-Fits (suc (bits_left b)) p.1 out p.0.0 p.0.1 limit w.reader h
                (omega (arith, w.fewer)))
              (λ q fits. (fits.0, IsWithin-trans w fits.1))

abbrev Bounded : ℕ → List ℕ → Type 0
Bounded limit out = length out ≤ limit

blocks-Bounded :
    (fuel : ℕ) (b : Bits) (out : List ℕ) (limit : ℕ)
    → IsReader b
    → length out ≤ limit
    → bits_left b < fuel
    → Ensures (Bounded limit) (blocks fuel b out limit)
unfolding blocks
blocks-Bounded zero b out limit v h enough = absurd (omega arith)
blocks-Bounded (suc fuel) b out limit v h enough =
    Ensures->>= (Took b 1) (Bounded limit) (take_bits b 1) _ (take_bits_lem b 1 v) λ p tp.
      Ensures->>= (Took p.1 2) (Bounded limit) (take_bits p.1 2) _ (take_bits_lem p.1 2 tp.0)
        λ q tq.
          Ensures->>= (Fits limit q.1) (Bounded limit) (block q.0 q.1 out limit) _
            (block-Fits q.0 q.1 out limit tq.0 h)
            λ r fits.
              if-cases (Ensures (Bounded limit)) (p.0 == 1) _ _ (λ last. fits.0)
                (λ more.
                  blocks-Bounded fuel r.1 r.0 limit fits.1.reader fits.0
                    (omega (arith, fits.1.fewer, tp.1, tq.1)))

-- On any input `inflate` ends, and what it gives has at most `limit` bytes.
pub inflate-Bounded :
    (src : List ℕ) (limit : ℕ) → Ensures (λ (out : List ℕ). length out ≤ limit) (inflate src limit)
unfolding inflate
inflate-Bounded src limit =
    blocks-Bounded (suc (bits_left (new src))) (new src) [] limit (new-IsReader src) (omega arith)
      (omega arith)

-- On any input the loops of `zlib` end within their fuel, and what it gives has at most `limit`
-- bytes.
pub zlib-Bounded :
    (src : List ℕ) (limit : ℕ)
    → (zlib src limit ≢ stuck) × ((out : List ℕ) → zlib src limit ≡ ok out → length out ≤ limit)
zlib-Bounded src limit =
    (λ e. subst (Ensures (Bounded limit)) e all, λ out e. subst (Ensures (Bounded limit)) e all)
  where
    all : Ensures (Bounded limit) (zlib src limit)
    all =
        unfold zlib in
        Ensures-refuse (Bounded limit) (ltb (length src) 2) no_header _ λ _.
          Ensures-refuse (Bounded limit) (not (bit_and (get_or src 0 0) 0x0f == 8)) not_deflate _
            λ _.
              Ensures-refuse (Bounded limit)
                (not ((get_or src 0 0 * 256 + get_or src 1 0) % u16_mod % 31 == 0)) bad_check _
                λ _.
                  Ensures-refuse (Bounded limit) (not (bit_and (get_or src 1 0) 0x20 == 0))
                    preset_dictionary _ λ _. inflate-Bounded (drop 2 src) limit
