-- ===== src/Common/Slices.antt =====
-- Fronts and backs of lists: of appended lists, and of arrays that were written to.
use barry_os.Common.Lists.{
  length, get_or, set, take, drop, write_at, take-set, length-set, replicate, length-append,
}
use Prim.Native.Nat.{ℕ, zero, suc, ◌+◌, ◌≤◌, ◌<◌}
use mathlib.Core.Path.{◌≡◌, refl, sym, ap, subst, ◌∙◌}
use mathlib.Core.List.{List, [], ◌∷◌, ◌++◌, append_assoc, append-nil}
use native.Mathlib.Omega.{arith}

module _ {ℓ} {A : Type ℓ} where
  pub drop-append : (xs ys : List A) (n k : ℕ) → n ≡ length xs + k → drop n (xs ++ ys) ≡ drop k ys
  drop-append [] ys n k h = ap (λ i. drop i ys) {x = n} (omega arith)
  drop-append (x ∷ xs) ys zero k h = absurd (omega arith)
  drop-append (x ∷ xs) ys (suc n) k h = drop-append xs ys n k (omega arith)

  pub take-append : (xs ys : List A) (n : ℕ) → n ≡ length xs → take n (xs ++ ys) ≡ xs
  take-append [] ys zero h = refl
  take-append [] ys (suc n) h = absurd (omega arith)
  take-append (x ∷ xs) ys zero h = absurd (omega arith)
  take-append (x ∷ xs) ys (suc n) h = ap (◌∷◌ x) (take-append xs ys n (omega arith))

  pub get_or-append :
      (xs ys : List A) (n k : ℕ) (d : A) → n ≡ length xs + k → get_or (xs ++ ys) n d ≡ get_or ys k d
  get_or-append [] ys n k d h = ap (λ i. get_or ys i d) {x = n} (omega arith)
  get_or-append (x ∷ xs) ys zero k d h = absurd (omega arith)
  get_or-append (x ∷ xs) ys (suc n) k d h = get_or-append xs ys n k d (omega arith)

  pub get_or-append_left :
      (xs ys : List A) (i : ℕ) (d : A) → i < length xs → get_or (xs ++ ys) i d ≡ get_or xs i d
  get_or-append_left [] ys i d h = absurd (omega arith)
  get_or-append_left (x ∷ xs) ys zero d h = refl
  get_or-append_left (x ∷ xs) ys (suc i) d h = get_or-append_left xs ys i d (omega arith)

  pub get_or-drop :
      (n : ℕ) (xs : List A) (i : ℕ) (d : A) → get_or (drop n xs) i d ≡ get_or xs (n + i) d
  get_or-drop zero xs i d = ap (λ k. get_or xs k d) {x = i} (omega arith)
  get_or-drop (suc n) [] i d = refl
  get_or-drop (suc n) (x ∷ xs) i d =
      get_or-drop n xs i d
      ∙ ap (λ k. get_or (x ∷ xs) k d) {x = suc (n + i)} {y = suc n + i} (omega arith)

  -- Bytes written behind the first `i` of a buffer follow them.
  pub take-write_at_end :
      (bs buf : List A) (i k : ℕ)
      → k ≡ i + length bs
      → k ≤ length buf
      → take k (write_at buf i bs) ≡ take i buf ++ bs
  unfolding write_at
  take-write_at_end [] buf i k e h =
      ap (λ n. take n buf) {x = k} (omega arith) ∙ sym (append-nil (take i buf))
  take-write_at_end (b ∷ bs) buf i k e h =
      take-write_at_end bs (set buf i b) (i + 1) k (omega arith) (omega (arith, length-set buf i b))
      ∙ ap (λ l. l ++ bs) (take-set i buf b (omega arith))
      ∙ append_assoc (take i buf) (b ∷ []) bs

  pub take-replicate : (n k : ℕ) (a : A) → take n (replicate (n + k) a) ≡ replicate n a
  take-replicate zero k a = refl
  take-replicate (suc n) k a =
      subst (λ j. take (suc n) (replicate j a) ≡ a ∷ replicate n a) {x = suc (n + k)} (omega arith)
        (ap (◌∷◌ a) (take-replicate n k a))

  pub drop_all : (n : ℕ) (xs : List A) → length xs ≤ n → drop n xs ≡ []
  drop_all zero [] h = refl
  drop_all zero (x ∷ xs) h = absurd (omega arith)
  drop_all (suc n) [] h = refl
  drop_all (suc n) (x ∷ xs) h = drop_all n xs (omega arith)

  pub set-append :
      (xs ys : List A) (n : ℕ) (y b : A) → n ≡ length xs → set (xs ++ y ∷ ys) n b ≡ xs ++ b ∷ ys
  set-append [] ys zero y b h = refl
  set-append [] ys (suc n) y b h = absurd (omega arith)
  set-append (x ∷ xs) ys zero y b h = absurd (omega arith)
  set-append (x ∷ xs) ys (suc n) y b h = ap (◌∷◌ x) (set-append xs ys n y b (omega arith))

  pub write_at-append :
      (bs xs ys : List A) (n : ℕ)
      → n ≡ length xs
      → length bs ≤ length ys
      → write_at (xs ++ ys) n bs ≡ xs ++ (bs ++ drop (length bs) ys)
  unfolding write_at
  write_at-append [] xs ys n e h = refl
  write_at-append (b ∷ bs) xs [] n e h = absurd (omega arith)
  write_at-append (b ∷ bs) xs (y ∷ ys) n e h =
      ap (λ l. write_at l (n + 1) bs) (set-append xs ys n y b e ∙ sym (append_assoc xs (b ∷ []) ys))
      ∙ write_at-append bs (xs ++ b ∷ []) ys (n + 1) (omega (arith, length-append xs (b ∷ [])))
          (omega arith)
      ∙ append_assoc xs (b ∷ []) (bs ++ drop (length bs) ys)

  pub drop-replicate : (n k : ℕ) (a : A) → drop n (replicate (n + k) a) ≡ replicate k a
  drop-replicate zero k a = ap (λ n. replicate n a) {x = 0 + k} (omega arith)
  drop-replicate (suc n) k a =
      subst (λ j. drop (suc n) (replicate j a) ≡ replicate k a) {x = suc (n + k)} (omega arith)
        (drop-replicate n k a)

-- Parts, one after the other.
unfoldable pub concat {ℓ} : {A : Type ℓ} → List (List A) → List A
concat [] = []
concat (p ∷ ps) = p ++ concat ps
