-- ===== src/Img/Inflate/Described.antt =====
-- The block that describes its tables is read without running out of fuel.
use barry_os.Img.Huffman.Total.{
  Always, build-Always, take_bits-IsWithin, decode-IsShorter, IsWithin-trans,
}
use barry_os.Img.Outcome.{Ensures, Ensures->>=, Ensures-refuse, Ensures-weaken}
use barry_os.Img.Bits.Left.{IsWithin, IsReader, Took, IsShorter, take_bits_lem}
use barry_os.Img.Bits.{Bits, take_bits}
use barry_os.Img.Inflate.{
  put_run, put_read_run, dynamic, read_lengths, read_clen, build_both, put_symbol, put_length, Huff,
  put_single, build, run_off_end, nothing_to_repeat, decode, all_zero, clen_order,
}
use barry_os.Common.{
  ℕ, List, ◌≤◌, ◌<◌, arith, ◌+◌, suc, ge→ltb, if-cases, take, ltb, leb, ◌==◌, replicate,
  if◌then◌else◌, get_or, set, zero, drop, ◌-◌,
}

abbrev Within {ℓ} : {A : Type ℓ} → Bits → A × Bits → Type 0
Within b p = IsWithin b p.1

read_clen-Within :
    (k i : ℕ) (b : Bits) (clen : List ℕ) → IsReader b → Ensures (Within b) (read_clen k i b clen)
unfolding read_clen
read_clen-Within zero i b clen v = record { reader = v; fewer = omega arith }
read_clen-Within (suc k) i b clen v =
    Ensures->>= (Took b 3) (Within b) (take_bits b 3) _ (take_bits_lem b 3 v) λ p took.
      Ensures-weaken (Within p.1) (Within b)
        (read_clen k (i + 1) p.1 (set clen (get_or clen_order i 0) p.0))
        (read_clen-Within k (i + 1) p.1 (set clen (get_or clen_order i 0) p.0) took.0)
        (λ q w. IsWithin-trans (take_bits-IsWithin b 3 p took) w)

put_length-Always : (lengths : List ℕ) (i v : ℕ) → Ensures Always (put_length lengths i v)
unfolding put_length
put_length-Always lengths i v = if-cases (Ensures Always) (ltb i 318) _ _ (λ _. tt) (λ _. tt)

-- The place after a run.
abbrev Moved : ℕ → ℕ × List ℕ → Type 0
Moved i p = i ≤ p.0

put_run-Moved :
    (k i total v : ℕ) (lengths : List ℕ) → Ensures (Moved (i + k)) (put_run k i total v lengths)
unfolding put_run
put_run-Moved zero i total v lengths = omega arith
put_run-Moved (suc k) i total v lengths =
    Ensures-refuse (Moved (i + suc k)) (leb total i) run_off_end _ λ _.
      Ensures->>= Always (Moved (i + suc k)) (put_length lengths i v) _
        (put_length-Always lengths i v)
        λ l _.
          Ensures-weaken (Moved (i + 1 + k)) (Moved (i + suc k)) (put_run k (i + 1) total v l)
            (put_run-Moved k (i + 1) total v l) (λ p h. omega (arith, h))

-- The place after a symbol, and a reader that is not ahead.
abbrev Set : ℕ → Bits → (ℕ × List ℕ) × Bits → Type 0
Set i b p = (i < p.0.0) × IsWithin b p.1

put_read_run-Set :
    (base bits : ℕ) (b : Bits) (i total v : ℕ) (lengths : List ℕ)
    → 0 < base
    → IsReader b
    → Ensures (Set i b) (put_read_run base bits b i total v lengths)
unfolding put_read_run
put_read_run-Set base bits b i total v lengths pos w =
    Ensures->>= (Took b bits) (Set i b) (take_bits b bits) _ (take_bits_lem b bits w) λ p took.
      Ensures->>= (Moved (i + (base + p.0))) (Set i b) (put_run (base + p.0) i total v lengths) _
        (put_run-Moved (base + p.0) i total v lengths)
        (λ q h. (omega (arith, h), take_bits-IsWithin b bits p took))

put_symbol-Set :
    (sym : ℕ) (b : Bits) (i total : ℕ) (lengths : List ℕ)
    → IsReader b
    → Ensures (Set i b) (put_symbol sym b i total lengths)
unfolding put_symbol
put_symbol-Set sym b i total lengths v =
    if-cases (Ensures (Set i b)) (ltb sym 16) _ _ (λ _. single)
      λ _.
        if-cases (Ensures (Set i b)) (sym == 16) _ _
          (λ _. Ensures-refuse (Set i b) (i == 0) nothing_to_repeat _ (λ _.
            put_read_run-Set 3 2 b i total (get_or lengths (i - 1) 0) lengths (omega arith) v))
          λ _.
            if-cases (Ensures (Set i b)) (sym == 17) _ _
              (λ _. put_read_run-Set 3 3 b i total 0 lengths (omega arith) v)
              λ _.
                if-cases (Ensures (Set i b)) (sym == 18) _ _
                  (λ _. put_read_run-Set 11 7 b i total 0 lengths (omega arith) v) (λ _. tt)
  where
    single : Ensures (Set i b) (put_single sym b i lengths)
    single =
        unfold put_single in
        Ensures->>= Always (Set i b) (put_length lengths i sym) _ (put_length-Always lengths i sym)
          (λ l _. (omega arith, record { reader = v; fewer = omega arith }))

read_lengths-Within :
    (fuel : ℕ) (t : Huff) (b : Bits) (i total : ℕ) (lengths : List ℕ)
    → IsReader b
    → total ≤ i + fuel
    → Ensures (Within b) (read_lengths fuel t b i total lengths)
unfolding read_lengths
read_lengths-Within zero t b i total lengths v enough =
    rw (ge→ltb i total (omega arith)) (record { reader = v; fewer = omega arith })
read_lengths-Within (suc fuel) t b i total lengths v enough =
    if-cases (Ensures (Within b)) (ltb i total) _ _
      (λ more.
        Ensures->>= (λ (p : ℕ × Bits). IsShorter b p.1) (Within b) (decode t b) _
          (decode-IsShorter t b v)
          λ p shorter.
            Ensures->>= (Set i p.1) (Within b) (put_symbol p.0 p.1 i total lengths) _
              (put_symbol-Set p.0 p.1 i total lengths shorter.reader)
              λ q moved.
                Ensures-weaken (Within q.1) (Within b) (read_lengths fuel t q.1 q.0.0 total q.0.1)
                  (read_lengths-Within fuel t q.1 q.0.0 total q.0.1 moved.1.reader
                    (omega (arith, moved.0)))
                  (λ r w. record {
                    reader = w.reader;
                    fewer = omega (arith, w.fewer, moved.1.fewer, shorter.fewer);
                  }))
      (λ done. record { reader = v; fewer = omega arith })

build_both-Always :
    (lengths : List ℕ) (hlit hdist : ℕ) → Ensures Always (build_both lengths hlit hdist)
unfolding build_both
build_both-Always lengths hlit hdist =
    Ensures->>= Always Always (build (take hlit lengths)) _ (build-Always (take hlit lengths))
      λ lit _.
        Ensures->>= Always Always
          (if all_zero (take hdist (drop hlit lengths))
            then build (set (replicate 30 0) 0 1)
            else build (take hdist (drop hlit lengths)))
          _
          (if-cases (Ensures Always) (all_zero (take hdist (drop hlit lengths))) _ _
            (λ _. build-Always (set (replicate 30 0) 0 1))
            (λ _. build-Always (take hdist (drop hlit lengths))))
          (λ dist _. tt)

pub dynamic-IsWithin :
    (b : Bits) → IsReader b → Ensures (λ (p : (Huff × Huff) × Bits). IsWithin b p.1) (dynamic b)
unfolding dynamic
dynamic-IsWithin b v =
    Ensures->>= (Took b 5) (Within b) (take_bits b 5) _ (take_bits_lem b 5 v) λ x tx.
      Ensures->>= (Took x.1 5) (Within b) (take_bits x.1 5) _ (take_bits_lem x.1 5 tx.0) λ y ty.
        Ensures->>= (Took y.1 4) (Within b) (take_bits y.1 4) _ (take_bits_lem y.1 4 ty.0) λ z tz.
          Ensures->>= (Within z.1) (Within b) (read_clen (z.0 + 4) 0 z.1 (replicate 19 0)) _
            (read_clen-Within (z.0 + 4) 0 z.1 (replicate 19 0) tz.0)
            λ c wc. Ensures->>= Always (Within b) (build c.0) _ (build-Always c.0) λ t _.
              let total = x.0 + 257 + (y.0 + 1) in
              Ensures->>= (Within c.1) (Within b)
                (read_lengths total t c.1 0 total (replicate 318 0)) _
                (read_lengths-Within total t c.1 0 total (replicate 318 0) wc.reader (omega arith))
                λ l wl.
                  Ensures->>= Always (Within b) (build_both l.0 (x.0 + 257) (y.0 + 1)) _
                    (build_both-Always l.0 (x.0 + 257) (y.0 + 1))
                    (λ tables _. record {
                      reader = wl.reader;
                      fewer = omega (arith, wl.fewer, wc.fewer, tx.1, ty.1, tz.1);
                    })
