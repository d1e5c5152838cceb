-- ===== src/Net/Ipv4/Sums.antt =====
-- The Internet checksum of kernel/src/net/ipv4.rs: a buffer with its checksum in place sums to zero.
use barry_os.Common.{
  ℕ, ◌∷◌, ◌≡◌, All, ◌<◌, ◌+◌, ◌++◌, arith, length, refl, [], ◌*◌, ◌-◌, ◌%◌, ◌≤◌, ◌∙◌, ◌^◌, subst,
  ◌/◌, ap, if-cases, ◌==◌, ==→eq, ==→ne,
}
use barry_os.Common.Words.{u32_mod}
use barry_os.Net.Arp.{be16}
use barry_os.Net.Ipv4.{sum_words, fold_carry, checksum, List}

-- The sum without a bound.
abbrev pub word_sum : List ℕ → ℕ
word_sum [] = 0
word_sum (a ∷ []) = a * 256
word_sum (a ∷ b ∷ rest) = a * 256 + b + word_sum rest

-- An even number of bytes.
abbrev pub IsEven : List ℕ → Type 0
IsEven [] = Unit
IsEven (a ∷ []) = ⊥
IsEven (a ∷ b ∷ rest) = IsEven rest

abbrev pub IsByte : ℕ → Type 0
IsByte b = b < 256

sum_words-word_sum :
    (xs : List ℕ) (a : ℕ) → a + word_sum xs < u32_mod → sum_words xs a ≡ a + word_sum xs
unfolding sum_words
sum_words-word_sum [] a h = omega arith
sum_words-word_sum (b ∷ []) a h = omega arith
sum_words-word_sum (b ∷ c ∷ rest) a h =
    let e : (a + (b * 256 + c)) % u32_mod ≡ a + (b * 256 + c) = omega arith in
    rw (e) (sum_words-word_sum rest (a + (b * 256 + c)) (omega arith) ∙ omega arith)

word_sum-append :
    (pre post : List ℕ) → IsEven pre → word_sum (pre ++ post) ≡ word_sum pre + word_sum post
word_sum-append [] post h = omega arith
word_sum-append (a ∷ []) post h = absurd h
word_sum-append (a ∷ b ∷ rest) post h = omega (arith, word_sum-append rest post h)

-- A 16-bit field at an even offset adds its value.
word_sum-be16 :
    (pre post : List ℕ) (v : ℕ)
    → IsEven pre
    → word_sum (pre ++ (be16 v ++ post)) ≡ word_sum pre + word_sum post + v
word_sum-be16 pre post v h = word_sum-append pre (be16 v ++ post) h ∙ omega arith

word_sum_le : (xs : List ℕ) → All IsByte xs → word_sum xs ≤ 65535 * length xs
word_sum_le [] h = omega arith
word_sum_le (a ∷ []) h = omega (arith, h.0)
word_sum_le (a ∷ b ∷ rest) h = omega (arith, h.0, h.1.0, word_sum_le rest h.1.1)

-- A 32-bit sum folded to 16 bits keeps its value modulo 65535, and is zero only when the sum is.
record IsFolded (sum f : ℕ) : Type 0 where
  rounds : ℕ
  value : sum ≡ f + 65535 * rounds
  small : f < 65536
  nonzero : sum ≤ u32_mod * f

fold_carry_lem : (sum : ℕ) → sum < u32_mod → IsFolded sum (fold_carry 2 sum)
unfolding fold_carry
fold_carry_lem sum h =
    let once = sum % 2 ^ 16 + sum / 2 ^ 16 in
    if-cases (IsFolded sum) (sum / 2 ^ 16 == 0) sum _
      (λ t.
        let small = ==→eq _ _ t in
        record {
          rounds = 0;
          value = omega arith;
          small = omega (arith, small);
          nonzero = omega arith;
        })
      λ f.
        if-cases (IsFolded sum) (once / 2 ^ 16 == 0) once _
          (λ t.
            let small = ==→eq _ _ t in
            let big = ==→ne _ _ f in
            record {
              rounds = sum / 2 ^ 16;
              value = omega arith;
              small = omega (arith, small);
              nonzero = omega (arith, big, h);
            })
          λ g.
            let big = ==→ne _ _ f in
            let more = ==→ne _ _ g in
            record {
              rounds = sum / 2 ^ 16 + once / 2 ^ 16;
              value = omega arith;
              small = omega (arith, h);
              nonzero = omega (arith, big, more, h);
            }

zero-checksum :
    (xs : List ℕ) (f : ℕ) → fold_carry 2 (sum_words xs 0) ≡ f → f ≡ 65535 → checksum xs ≡ 0
unfolding checksum
zero-checksum xs f e h = rw (e, h) refl

checksum_fold :
    (xs : List ℕ)
    → fold_carry 2 (sum_words xs 0) < 65536
    → checksum xs ≡ 65535 - fold_carry 2 (sum_words xs 0)
unfolding checksum
checksum_fold xs h = omega arith

-- A buffer of bytes, not longer than a packet, in which the 16-bit field at an even offset holds the
-- checksum of the buffer with zero in that field, has checksum zero.
pub checksum-checksum :
    (pre post : List ℕ)
    → IsEven pre
    → All IsByte pre
    → All IsByte post
    → length pre + length post ≤ 65534
    → checksum (pre ++ (be16 (checksum (pre ++ (be16 0 ++ post))) ++ post)) ≡ 0
checksum-checksum pre post even pb qb short =
    let blank = pre ++ (be16 0 ++ post) in
    let total = word_sum pre + word_sum post in
    let bound = word_sum_le pre pb in
    let bound' = word_sum_le post qb in
    let blank-word : word_sum blank ≡ total = word_sum-be16 pre post 0 even ∙ omega arith in
    let blank-sum : sum_words blank 0 ≡ total =
      sum_words-word_sum blank 0 (omega (arith, blank-word, bound, bound', short))
      ∙ omega (arith, blank-word) in
    let first = fold_carry_lem total (omega (arith, bound, bound', short)) in
    let ck = checksum blank in
    let ck-eq : ck ≡ 65535 - fold_carry 2 total =
      subst (λ s. fold_carry 2 s < 65536 → ck ≡ 65535 - fold_carry 2 s) blank-sum
        (checksum_fold blank) first.small in
    let filled = pre ++ (be16 ck ++ post) in
    let filled-word : word_sum filled ≡ total + ck = word_sum-be16 pre post ck even in
    let filled-sum : sum_words filled 0 ≡ total + ck =
      sum_words-word_sum filled 0 (omega (arith, filled-word, bound, bound', short, ck-eq))
      ∙ omega (arith, filled-word) in
    let second = fold_carry_lem (total + ck) (omega (arith, bound, bound', short, ck-eq)) in
    zero-checksum filled (fold_carry 2 (total + ck)) (ap (fold_carry 2) filled-sum) (
      omega (
        arith, ck-eq, first.value, first.small, first.nonzero, second.value, second.small,
        second.nonzero,
      ))
