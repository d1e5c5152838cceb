-- ===== src/Common/Lists.antt =====
-- Arrays and byte strings as lists with native indices, under the library's names.
use Prim.Native.Nat.{ℕ, zero, suc, ◌+◌, ◌-◌, ◌≤◌, ◌<◌, min}
use mathlib.Core.Path.{◌≡◌, refl, ap, ap₂, subst, ◌∙◌}
use mathlib.Core.Logic.{◌≢◌}
use mathlib.Core.List.{List, [], ◌∷◌, ◌++◌}
use native.Mathlib.Omega.{arith}

module _ {ℓ} {A : Type ℓ} where
  abbrev pub length : List A → ℕ
  length [] = 0
  length (x ∷ xs) = suc (length xs)

  abbrev pub get_or : List A → ℕ → A → A
  get_or [] i d = d
  get_or (x ∷ xs) zero d = x
  get_or (x ∷ xs) (suc i) d = get_or xs i d

  -- A write out of bounds changes nothing.
  abbrev pub set : List A → ℕ → A → List A
  set [] i v = []
  set (x ∷ xs) zero v = v ∷ xs
  set (x ∷ xs) (suc i) v = x ∷ set xs i v

  abbrev pub take : ℕ → List A → List A
  take zero xs = []
  take (suc n) [] = []
  take (suc n) (x ∷ xs) = x ∷ take n xs

  abbrev pub drop : ℕ → List A → List A
  drop zero xs = xs
  drop (suc n) [] = []
  drop (suc n) (x ∷ xs) = drop n xs

  abbrev pub replicate : ℕ → A → List A
  replicate zero a = []
  replicate (suc n) a = a ∷ replicate n a

  abbrev pub All {κ} : (A → Type κ) → List A → Type κ
  All P [] = Unit
  All P (x ∷ xs) = P x × All P xs

module _ {ℓ} {A : Type ℓ} where
  pub length-append : (xs ys : List A) → length (xs ++ ys) ≡ length xs + length ys
  length-append [] ys = omega arith
  length-append (x ∷ xs) ys = omega (arith, length-append xs ys)

  pub length-set : (xs : List A) (i : ℕ) (v : A) → length (set xs i v) ≡ length xs
  length-set [] i v = refl
  length-set (x ∷ xs) zero v = refl
  length-set (x ∷ xs) (suc i) v = ap suc (length-set xs i v)

  pub length-replicate : (n : ℕ) (a : A) → length (replicate n a) ≡ n
  length-replicate zero a = refl
  length-replicate (suc n) a = ap suc (length-replicate n a)

  pub length-take : (n : ℕ) (xs : List A) → length (take n xs) ≡ min n (length xs)
  length-take zero xs = omega arith
  length-take (suc n) [] = omega arith
  length-take (suc n) (x ∷ xs) = omega (arith, length-take n xs)

  pub length-drop : (n : ℕ) (xs : List A) → length (drop n xs) ≡ length xs - n
  length-drop zero xs = omega arith
  length-drop (suc n) [] = omega arith
  length-drop (suc n) (x ∷ xs) = omega (arith, length-drop n xs)

  pub take-append-drop : (n : ℕ) (xs : List A) → take n xs ++ drop n xs ≡ xs
  take-append-drop zero xs = refl
  take-append-drop (suc n) [] = refl
  take-append-drop (suc n) (x ∷ xs) = ap (◌∷◌ x) (take-append-drop n xs)

  pub get_or-set_self :
      (xs : List A) (i : ℕ) (v d : A) → i < length xs → get_or (set xs i v) i d ≡ v
  get_or-set_self [] i v d h = absurd (omega arith)
  get_or-set_self (x ∷ xs) zero v d h = refl
  get_or-set_self (x ∷ xs) (suc i) v d h = get_or-set_self xs i v d (omega arith)

  pub get_or-set_ne :
      (xs : List A) (i j : ℕ) (v d : A) → i ≢ j → get_or (set xs i v) j d ≡ get_or xs j d
  get_or-set_ne [] i j v d h = refl
  get_or-set_ne (x ∷ xs) zero zero v d h = absurd (h refl)
  get_or-set_ne (x ∷ xs) zero (suc j) v d h = refl
  get_or-set_ne (x ∷ xs) (suc i) zero v d h = refl
  get_or-set_ne (x ∷ xs) (suc i) (suc j) v d h = get_or-set_ne xs i j v d (λ e. h (ap suc e))

  pub get_or-replicate : (n i : ℕ) (a d : A) → i < n → get_or (replicate n a) i d ≡ a
  get_or-replicate zero i a d h = absurd (omega arith)
  get_or-replicate (suc n) zero a d h = refl
  get_or-replicate (suc n) (suc i) a d h = get_or-replicate n i a d (omega arith)

  pub get_or_past : (xs : List A) (i : ℕ) (d : A) → length xs ≤ i → get_or xs i d ≡ d
  get_or_past [] i d h = refl
  get_or_past (x ∷ xs) zero d h = absurd (omega arith)
  get_or_past (x ∷ xs) (suc i) d h = get_or_past xs i d (omega arith)

  pub get_or-take :
      (n : ℕ) (xs : List A) (i : ℕ) (d : A) → i < n → get_or (take n xs) i d ≡ get_or xs i d
  get_or-take zero xs i d h = absurd (omega arith)
  get_or-take (suc n) [] i d h = refl
  get_or-take (suc n) (x ∷ xs) zero d h = refl
  get_or-take (suc n) (x ∷ xs) (suc i) d h = get_or-take n xs i d (omega arith)

module _ {ℓ κ} {A : Type ℓ} (P : A → Type κ) where
  pub All-set : (xs : List A) (i : ℕ) (v : A) → P v → All P xs → All P (set xs i v)
  All-set [] i v p h = h
  All-set (x ∷ xs) zero v p h = (p, h.1)
  All-set (x ∷ xs) (suc i) v p h = (h.0, All-set xs i v p h.1)

  pub All-get_or : (xs : List A) (i : ℕ) (d : A) → P d → All P xs → P (get_or xs i d)
  All-get_or [] i d p h = p
  All-get_or (x ∷ xs) zero d p h = h.0
  All-get_or (x ∷ xs) (suc i) d p h = All-get_or xs i d p h.1

  pub All-replicate : (n : ℕ) (v : A) → P v → All P (replicate n v)
  All-replicate zero v p = tt
  All-replicate (suc n) v p = (p, All-replicate n v p)

module _ {ℓ} {A : Type ℓ} where
  -- `for (j, b) in bs.enumerate() { buf[i + j] = b }`
  unfoldable pub write_at : List A → ℕ → List A → List A
  write_at buf i [] = buf
  write_at buf i (b ∷ bs) = write_at (set buf i b) (i + 1) bs

  pub length-write_at : (bs buf : List A) (i : ℕ) → length (write_at buf i bs) ≡ length buf
  unfolding write_at
  length-write_at [] buf i = refl
  length-write_at (b ∷ bs) buf i = length-write_at bs (set buf i b) (i + 1) ∙ length-set buf i b

  pub get_or-write_at_below :
      (bs buf : List A) (i j : ℕ) (d : A) → j < i → get_or (write_at buf i bs) j d ≡ get_or buf j d
  unfolding write_at
  get_or-write_at_below [] buf i j d h = refl
  get_or-write_at_below (b ∷ bs) buf i j d h =
      get_or-write_at_below bs (set buf i b) (i + 1) j d (omega arith)
      ∙ get_or-set_ne buf i j b d (omega arith)

  -- What is written is read back.
  pub get_or-write_at :
      (bs buf : List A) (i j : ℕ) (d : A)
      → i + length bs ≤ length buf
      → j < length bs
      → get_or (write_at buf i bs) (i + j) d ≡ get_or bs j d
  unfolding write_at
  get_or-write_at [] buf i j d h hj = absurd (omega arith)
  get_or-write_at (b ∷ bs) buf i zero d h hj =
      subst (λ k. get_or (write_at (set buf i b) (i + 1) bs) k d ≡ b) {x = i} (omega arith)
        (get_or-write_at_below bs (set buf i b) (i + 1) i d (omega arith)
          ∙ get_or-set_self buf i b d (omega arith))
  get_or-write_at (b ∷ bs) buf i (suc j) d h hj =
      subst (λ k. get_or (write_at (set buf i b) (i + 1) bs) k d ≡ get_or bs j d) {x = i + 1 + j}
        (omega arith)
        (get_or-write_at bs (set buf i b) (i + 1) j d (omega (arith, length-set buf i b))
          (omega arith))

module _ {ℓ} {A : Type ℓ} where
  pub list_ext :
      (xs ys : List A) (d : A)
      → length xs ≡ length ys
      → ((j : ℕ) → j < length xs → get_or xs j d ≡ get_or ys j d)
      → xs ≡ ys
  list_ext [] [] d e h = refl
  list_ext [] (y ∷ ys) d e h = absurd (omega arith)
  list_ext (x ∷ xs) [] d e h = absurd (omega arith)
  list_ext (x ∷ xs) (y ∷ ys) d e h =
      ap₂ ◌∷◌ (h 0 (omega arith)) (list_ext xs ys d (omega arith) (λ j lt. h (suc j) (omega arith)))

  pub take_all : (n : ℕ) (xs : List A) → length xs ≤ n → take n xs ≡ xs
  take_all zero [] h = refl
  take_all zero (x ∷ xs) h = absurd (omega arith)
  take_all (suc n) [] h = refl
  take_all (suc n) (x ∷ xs) h = ap (◌∷◌ x) (take_all n xs (omega arith))

  pub take-write_at :
      (buf bs : List A) (v d : A)
      → length bs < length buf
      → take (length bs) (set (write_at buf 0 bs) (length bs) v) ≡ bs
  take-write_at buf bs v d h = list_ext _ bs d sized λ j lt.
      let below : j < length bs = omega (arith, sized) in
      get_or-take (length bs) _ j d below
      ∙ get_or-set_ne (write_at buf 0 bs) (length bs) j v d (omega arith)
      ∙ subst (λ k. get_or (write_at buf 0 bs) k d ≡ get_or bs j d) {x = 0 + j} (omega arith)
          (get_or-write_at bs buf 0 j d (omega arith) below)
    where
      sized : length (take (length bs) (set (write_at buf 0 bs) (length bs) v)) ≡ length bs
      sized = omega (
        arith,
        length-take (length bs) (set (write_at buf 0 bs) (length bs) v),
        length-set (write_at buf 0 bs) (length bs) v,
        length-write_at bs buf 0,
      )

  -- Writing just past the entries in use adds one.
  pub take-set :
      (n : ℕ) (xs : List A) (v : A)
      → n < length xs
      → take (n + 1) (set xs n v) ≡ take n xs ++ v ∷ []
  take-set n [] v h = absurd (omega arith)
  take-set zero (x ∷ xs) v h = refl
  take-set (suc n) (x ∷ xs) v h =
      subst (λ k. take k (x ∷ set xs n v) ≡ x ∷ (take n xs ++ v ∷ [])) {x = suc (n + 1)}
        (omega arith) (ap (◌∷◌ x) (take-set n xs v (omega arith)))
