-- ===== src/Img/Huffman/Total.antt =====
-- Tables are built and codes are read without running out of fuel; a code takes a bit at least.
use barry_os.Img.Outcome.{Ensures, Ensures->>=, ◌>>=◌, Ensures-refuse, Ensures-weaken}
use barry_os.Common.{
  arith, suc, ◌∷◌, replicate, if-cases, Bool-cases, ltb, set, inl, bit_or, get_or, ◌*◌, inr, ◌+◌,
  ◌==◌, length, [], ◌-◌, zero,
}
use barry_os.Img.Bits.Left.{IsShorter, IsWithin, IsReader, Took, take_bits_lem}
use barry_os.Img.Bits.{Bits, take_bits}
use barry_os.Img.Huffman.{
  count_lengths, Huff, build, check_free, ℕ, decode, decode_from, symbol_at, List, ok, no_codes,
}

pub IsWithin-trans : {a b c : Bits} → IsWithin a b → IsWithin b c → IsWithin a c
IsWithin-trans v w = record { reader = w.reader; fewer = omega (arith, v.fewer, w.fewer) }

pub Shorter-trans : {a b c : Bits} → IsShorter a b → IsWithin b c → IsShorter a c
Shorter-trans v w = record { reader = w.reader; fewer = omega (arith, v.fewer, w.fewer) }

pub take_bits-IsWithin {ℓ} :
    {A : Type ℓ} (b : Bits) (want : ℕ) (p : A × Bits) → Took b want p → IsWithin b p.1
take_bits-IsWithin b want p t = record { reader = t.0; fewer = omega (arith, t.1) }

abbrev pub Always {ℓ} : {A : Type ℓ} → A → Type 0
Always a = Unit

count_lengths-Always : (ls count : List ℕ) → Ensures Always (count_lengths count ls)
unfolding count_lengths
count_lengths-Always [] count = tt
count_lengths-Always (l ∷ ls) count =
    if-cases (Ensures Always) (ltb 15 l) _ _ (λ long. tt)
      (λ fits. count_lengths-Always ls (set count l (get_or count l 0 + 1)))

check_free-Always : (k len left : ℕ) (count : List ℕ) → Ensures Always (check_free k len left count)
unfolding check_free
check_free-Always zero len left count = tt
check_free-Always (suc k) len left count =
    if-cases (Ensures Always) (ltb (left * 2) (get_or count len 0)) _ _ (λ over. tt)
      (λ fits. check_free-Always k (len + 1) (left * 2 - get_or count len 0) count)

pub build-Always : (lengths : List ℕ) → Ensures Always (build lengths)
unfolding build
build-Always lengths =
    Ensures->>= Always Always (count_lengths (replicate 16 0) lengths) _
      (count_lengths-Always lengths (replicate 16 0))
      λ count _. Ensures-refuse Always (get_or count 0 0 == length lengths) no_codes _ λ some_code.
        Ensures->>= Always Always (check_free 15 1 1 count) _ (check_free-Always 15 1 1 count)
          (λ _ _. tt)

module _ (t : Huff) where
  symbol-IsShorter :
      (i : ℕ) (b r : Bits)
      → IsShorter b r
      → Ensures (λ (p : ℕ × Bits). IsShorter b p.1) (symbol_at t i >>= λ s. ok (s, r))
  unfolding symbol_at
  symbol-IsShorter i b r v = elim (Bool-cases (ltb i 288)) [
    | inl inside ↦ rw inside v
    | inr outside ↦ rw outside tt
  ]

  decode_from-IsShorter :
      (k len code first index : ℕ) (b : Bits)
      → IsReader b
      → Ensures (λ (p : ℕ × Bits). IsShorter b p.1) (decode_from k len code first index t b)
  unfolding decode_from
  decode_from-IsShorter zero len code first index b v = tt
  decode_from-IsShorter (suc k) len code first index b v =
      Ensures->>= (Took b 1) (λ (p : ℕ × Bits). IsShorter b p.1) (take_bits b 1) _
        (take_bits_lem b 1 v)
        λ p took.
          let shorter : IsShorter b p.1 = record {
            reader = took.0;
            fewer = omega (arith, took.1);
          } in
          if-cases (Ensures (λ (q : ℕ × Bits). IsShorter b q.1))
            (ltb (bit_or code p.0) (first + get_or t.count len 0)) _ _
            (λ found. symbol-IsShorter (index + bit_or code p.0 - first) b p.1 shorter)
            (λ more.
              Ensures-weaken (λ (q : ℕ × Bits). IsShorter p.1 q.1) _ _
                (decode_from-IsShorter k (len + 1) (bit_or code p.0 * 2)
                  ((first + get_or t.count len 0) * 2) (index + get_or t.count len 0) p.1 took.0)
                (λ q w. record { reader = w.reader; fewer = omega (arith, w.fewer, took.1) }))

  pub decode-IsShorter :
      (b : Bits) → IsReader b → Ensures (λ (p : ℕ × Bits). IsShorter b p.1) (decode t b)
  unfolding decode
  decode-IsShorter b v = decode_from-IsShorter 15 1 0 0 0 b v
