-- ===== src/Crypto/Sha256/Machine.antt =====
-- The hash one byte at a time: the chaining values and the bytes of the block begun. The buffered
-- operations are shown to do what this does.
use barry_os.Crypto.Sha256.{compress}
use barry_os.Common.{
  ℕ, List, ◌++◌, length, ◌∷◌, suc, if◌then◌else◌, ◌<◌, [], ◌+◌, ◌≡◌, ap, arith, take, refl, ◌*◌,
  ◌==◌, sym, eq→==, drop, length-append, append-nil, take-append-drop, zero, ==→ne, ne→==, ◌∙◌,
  append_assoc, length-take, length-drop, if-cases, ◌%◌, ==→eq,
}

unfoldable pub push : List ℕ × List ℕ → ℕ → List ℕ × List ℕ
push (h, p) b =
    if length (p ++ b ∷ []) == 64 then (compress h (p ++ b ∷ []), []) else (h, p ++ b ∷ [])

unfoldable pub absorb : List ℕ × List ℕ → List ℕ → List ℕ × List ℕ
absorb s [] = s
absorb s (b ∷ bs) = absorb (push s b) bs

pub absorb-append :
    (xs ys : List ℕ) (s : List ℕ × List ℕ) → absorb s (xs ++ ys) ≡ absorb (absorb s xs) ys
unfolding absorb
absorb-append [] ys s = refl
absorb-append (x ∷ xs) ys s = absorb-append xs ys (push s x)

-- Fewer bytes than complete the block are only kept.
pub absorb_few : (d h p : List ℕ) → length p + length d < 64 → absorb (h, p) d ≡ (h, p ++ d)
unfolding absorb push
absorb_few [] h p lt = ap (λ q. (h, q)) (sym (append-nil p))
absorb_few (b ∷ d) h p lt =
    rw (ne→== (length (p ++ b ∷ [])) 64 (omega (arith, length-append p (b ∷ [])))) (
      absorb_few d h (p ++ b ∷ []) (omega (arith, length-append p (b ∷ [])))
      ∙ ap (λ q. (h, q)) (append_assoc p (b ∷ []) d))

-- The bytes that complete the block are compressed with it.
pub absorb_block :
    (d h p : List ℕ)
    → length p < 64
    → length p + length d ≡ 64
    → absorb (h, p) d ≡ (compress h (p ++ d), [])
unfolding absorb push
absorb_block [] h p lt e = absurd (omega arith)
absorb_block (b ∷ []) h p lt e =
    rw (eq→== (length (p ++ b ∷ [])) 64 (omega (arith, length-append p (b ∷ []))))
absorb_block (b ∷ c ∷ d) h p lt e =
    rw (ne→== (length (p ++ b ∷ [])) 64 (omega (arith, length-append p (b ∷ [])))) (
      absorb_block (c ∷ d) h (p ++ b ∷ []) (omega (arith, length-append p (b ∷ [])))
        (omega (arith, length-append p (b ∷ [])))
      ∙ ap (λ q. (compress h q, [])) (append_assoc p (b ∷ []) (c ∷ d)))

push-length :
    (s : List ℕ × List ℕ) (b : ℕ) → length s.1 < 64 → length (push s b).1 ≡ (length s.1 + 1) % 64
unfolding push
push-length (h, p) b lt =
    if-cases (λ (s : List ℕ × List ℕ). length s.1 ≡ (length p + 1) % 64)
      (length (p ++ b ∷ []) == 64) _ _
      (λ full. omega (arith, length-append p (b ∷ []), ==→eq _ _ full))
      (λ more. omega (arith, length-append p (b ∷ []), ==→ne _ _ more))

-- The block begun has the bytes that are left of all those taken in.
pub absorb-length :
    (d : List ℕ) (s : List ℕ × List ℕ)
    → length s.1 < 64
    → length (absorb s d).1 ≡ (length s.1 + length d) % 64
unfolding absorb
absorb-length [] s lt = omega arith
absorb-length (b ∷ d) s lt =
    omega
      (arith, push-length s b lt, absorb-length d (push s b) (omega (arith, push-length s b lt)))

-- The standard's order of computation: the blocks of a message one after the other.
unfoldable pub digest_blocks : ℕ → List ℕ → List ℕ → List ℕ
digest_blocks zero h m = h
digest_blocks (suc k) h m = digest_blocks k (compress h (take 64 m)) (drop 64 m)

pub absorb-digest_blocks :
    (k : ℕ) (h m : List ℕ) → length m ≡ 64 * k → absorb (h, []) m ≡ (digest_blocks k h m, [])
unfolding digest_blocks
absorb-digest_blocks zero h [] e = unfold absorb in refl
absorb-digest_blocks zero h (x ∷ m) e = absurd (omega arith)
absorb-digest_blocks (suc k) h m e =
    ap (absorb (h, [])) (sym (take-append-drop 64 m))
    ∙ absorb-append (take 64 m) (drop 64 m) (h, [])
    ∙ ap (λ s. absorb s (drop 64 m))
        (absorb_block (take 64 m) h [] (omega arith) (omega (arith, length-take 64 m)))
    ∙ absorb-digest_blocks k (compress h (take 64 m)) (drop 64 m) (omega (arith, length-drop 64 m))
