-- ===== src/Crypto/Der/Read.antt =====
-- kernel/src/crypto/der.rs: what the reader takes is exactly an encoded value at the front.
use native.Mathlib.Nat.{add-mul, mul_assoc, pow-succ', add_assoc}
use barry_os.Common.{
  ◌≤◌, none, if-cases, ◌+◌, ltb, ◌≡◌, length, drop, ◌++◌, ap, some, arith, length-take, suc, ◌∙◌,
  ltb→ge, sym, take-append-drop, get_or, ◌<◌, [], ◌∷◌, ◌^◌, ◌%◌, zero, refl, ◌/◌, ◌==◌, eq→==, ◌||◌,
  ge→ltb, append_assoc, length-append, drop-append, take-append, ◌⊎◌, inl, subst, ◌*◌, ==→eq, inr,
  ◌≢◌, ne→==, false, length-drop, ==→ne, ap₂,
}
use barry_os.Crypto.Der.{Tlv, be_value, read_length, cut, read, List, ℕ, Option, take}

-- The number that bytes write, the highest first.
abbrev pub big_endian : List ℕ → ℕ
big_endian [] = 0
big_endian (b ∷ bs) = b * 256 ^ length bs + big_endian bs

-- A tag and a length: in one byte, or in a byte with the number of length bytes, one to four, and these.
abbrev pub IsHeader : ℕ → ℕ → List ℕ → Type 0
IsHeader tag len header =
    ((len < 128) × (header ≡ tag ∷ len ∷ []))
    ⊎ ((first : ℕ) × (bytes : List ℕ) × (128 ≤ first)
        × (first % 128 ≡ length bytes)
        × (1 ≤ length bytes)
        × (length bytes ≤ 4)
        × (big_endian bytes ≡ len)
        × (header ≡ tag ∷ first ∷ bytes))

-- The input is the value's header and contents, and the rest.
pub record IsEncoded (d : List ℕ) (t : Tlv) (rest : List ℕ) : Type 0 where
  pub header : List ℕ
  pub sizes : IsHeader t.tag (length t.body) header
  pub full : t.full ≡ header ++ t.body
  pub whole : d ≡ header ++ (t.body ++ rest)

-- What is read is a value that stands at the front; it is refused when none does.
pub data IsRead (d : List ℕ) : Option (Tlv × List ℕ) → Type 0 where
  refused : ((t : Tlv) (rest : List ℕ) → IsEncoded d t rest → ⊥) → IsRead d none
  taken : (t : Tlv) (rest : List ℕ) → IsEncoded d t rest → IsRead d (some (t, rest))

be_value_lem : (v : ℕ) (bs : List ℕ) → be_value v bs ≡ v * 256 ^ length bs + big_endian bs
unfolding be_value
be_value_lem v [] = omega arith
be_value_lem v (b ∷ bs) =
    let p = 256 ^ length bs in
    be_value_lem (v * 256 + b) bs
    ∙ ap (λ n. n + big_endian bs)
        (add-mul (v * 256) b p
          ∙ ap (λ n. n + b * p)
              (mul_assoc v 256 p ∙ ap (λ n. v * n) (sym (pow-succ' 256 (length bs)))))
    ∙ add_assoc (v * 256 ^ length (b ∷ bs)) (b * p) (big_endian bs)

-- The value whose header and contents stand at the front.
cut-append :
    (header body rest : List ℕ)
    → cut (header ++ (body ++ rest)) (length body, length header)
      ≡ some (
        record { tag = get_or (header ++ (body ++ rest)) 0 0; body = body; full = header ++ body },
        rest,
      )
unfolding cut
cut-append header body rest =
    let d = header ++ (body ++ rest) in
    let n = length header + length body in
    let both = sym (append_assoc header body rest) in
    let size = length-append header (body ++ rest) in
    let contents : take (length body) (drop (length header) d) ≡ body =
      ap (take (length body)) (drop-append header (body ++ rest) (length header) 0 (omega arith))
      ∙ take-append body rest (length body) refl in
    let sized : n ≡ length (header ++ body) = omega (arith, length-append header body) in
    let whole : take n d ≡ header ++ body =
      ap (take n) both ∙ take-append (header ++ body) rest n sized in
    let left : drop n d ≡ rest =
      ap (drop n) both ∙ drop-append (header ++ body) rest n 0 (omega (arith, sized)) in
    rw (ge→ltb (length d) n (omega (arith, size, length-append body rest)), contents, whole, left)
      refl

-- A header at the front gives its length and its own size.
read_length-append :
    (tag len : ℕ) (header tail : List ℕ)
    → IsHeader tag len header
    → read_length (header ++ tail) ≡ some (len, length header)
unfolding read_length
read_length-append tag len header tail (inl (short, e)) =
    rw (e, eq→== (len / 128) 0 (omega arith)) refl
read_length-append tag len header tail (inr (first, bytes, high, count, some_byte, few, value, e)) =
    let n = length bytes in
    rw
      (
        e,
        ne→== (first / 128) 0 (omega arith),
        count,
        ne→== n 0 (omega (arith, some_byte)),
        ge→ltb 4 n few,
        ge→ltb (suc (suc (length (bytes ++ tail)))) (2 + n)
            (omega (arith, length-append bytes tail)),
        take-append bytes tail n refl,
        be_value_lem 0 bytes,
        value,
      )
      (ap₂ (λ a b. some (a, b)) (omega arith) (omega arith))

IsHeader-long : (tag len : ℕ) (header : List ℕ) → IsHeader tag len header → 2 ≤ length header
IsHeader-long tag len header (inl (short, e)) = omega (arith, ap length e)
IsHeader-long tag len header (inr (first, bytes, high, count, some_byte, few, value, e)) =
    omega (arith, ap length e)

IsHeader-tag :
    (tag len : ℕ) (header tail : List ℕ)
    → IsHeader tag len header
    → get_or (header ++ tail) 0 0 ≡ tag
IsHeader-tag tag len header tail (inl (short, e)) = rw e refl
IsHeader-tag tag len header tail (inr (first, bytes, high, count, some_byte, few, value, e)) =
    rw e refl

-- An encoded value is read back, with what follows it.
read-append :
    (t : Tlv) (header rest : List ℕ)
    → IsHeader t.tag (length t.body) header
    → t.full ≡ header ++ t.body
    → read (header ++ (t.body ++ rest)) ≡ some (t, rest)
unfolding read
read-append t header rest h full =
    let d = header ++ (t.body ++ rest) in
    rw
      (
        ge→ltb (length d) 2
            (omega (arith, length-append header (t.body ++ rest), IsHeader-long _ _ header h)),
        read_length-append t.tag (length t.body) header (t.body ++ rest) h,
      )
      (cut-append header t.body rest
        ∙ rw (IsHeader-tag t.tag (length t.body) header (t.body ++ rest) h, sym full) refl)

take_empty : (n : ℕ) → take {A = ℕ} n [] ≡ []
take_empty zero = refl
take_empty (suc n) = refl

take_add : (m n : ℕ) (xs : List ℕ) → take (m + n) xs ≡ take m xs ++ take n (drop m xs)
take_add zero n xs = ap (λ k. take k xs) (omega arith)
take_add (suc m) n [] = take_empty (suc m + n) ∙ sym (take_empty n)
take_add (suc m) n (x ∷ xs) =
    ap (λ k. take k (x ∷ xs)) {y = suc (m + n)} (omega arith) ∙ ap (◌∷◌ x) (take_add m n xs)

-- What a result promises, nothing when there is none.
abbrev Sound : List ℕ → Option (Tlv × List ℕ) → Type 0
Sound d none = Unit
Sound d (some (t, rest)) = IsEncoded d t rest

abbrev IsSizes : List ℕ → Option (ℕ × ℕ) → Type 0
IsSizes d none = Unit
IsSizes d (some (len, hdr)) =
    (2 ≤ hdr) × (hdr ≤ length d) × IsHeader (get_or d 0 0) len (take hdr d)

cut-Sound : (d : List ℕ) (len hdr : ℕ) → IsSizes d (some (len, hdr)) → Sound d (cut d (len, hdr))
unfolding cut
cut-Sound d len hdr (two, inside, h) =
    if-cases (Sound d) (ltb (length d) (hdr + len)) none _ (λ e. tt)
      λ e.
        let fits = ltb→ge (length d) (hdr + len) e in
        let contents : length (take len (drop hdr d)) ≡ len =
          length-take len (drop hdr d) ∙ omega (arith, fits, length-drop hdr d) in
        record {
          header = take hdr d;
          sizes = subst (λ n. IsHeader (get_or d 0 0) n (take hdr d)) (sym contents) h;
          full = take_add hdr len d;
          whole =
              sym (take-append-drop (hdr + len) d)
              ∙ ap (λ xs. xs ++ drop (hdr + len) d) (take_add hdr len d)
              ∙ append_assoc (take hdr d) (take len (drop hdr d)) (drop (hdr + len) d);
        }

read_length-IsSizes :
    (tag first : ℕ) (ds : List ℕ) → IsSizes (tag ∷ first ∷ ds) (read_length (tag ∷ first ∷ ds))
unfolding read_length
read_length-IsSizes tag first ds =
    let d = tag ∷ first ∷ ds in
    let n = first % 128 in
    if-cases (IsSizes d) (first / 128 == 0) (some (first, 2)) _
      (λ h. (omega arith, omega arith, inl (omega (arith, ==→eq (first / 128) 0 h), refl)))
      λ h.
        if-cases (IsSizes d) (n == 0 || ltb 4 n || ltb (length d) (2 + n)) none _ (λ e. tt)
          (λ e.
            let fits : n ≤ length ds = ground (arith, e) in
            let some_byte : n ≢ 0 = ground (arith, e) in
            let few : n ≤ 4 = ground (arith, e) in
            let count : length (take n ds) ≡ n = length-take n ds ∙ omega (arith, fits) in
            (
              omega arith,
              omega (arith, fits),
              inr (
                first,
                take n ds,
                omega (arith, ==→ne (first / 128) 0 h),
                sym count,
                omega (arith, count, some_byte),
                omega (arith, count, few),
                omega (arith, be_value_lem 0 (take n ds)),
                ap (λ k. take k d) {y = suc (suc n)} (omega arith),
              ),
            ))

read-Sound : (d : List ℕ) → Sound d (read d)
unfolding read
read-Sound [] = tt
read-Sound (x ∷ []) = tt
read-Sound (tag ∷ first ∷ ds) =
    let d = tag ∷ first ∷ ds in
    let short : ltb (length d) 2 ≡ false = ge→ltb (length d) 2 (omega arith) in
    rw short (
      elim (read_length d)
          as (λ o.
            IsSizes d o
            → Sound d (elim o as (λ p. Option (Tlv × List ℕ)) [
              | none ↦ none
              | some sizes ↦ cut d sizes
            ])) [ none ↦ λ v. tt | some (len, hdr) ↦ λ v. cut-Sound d len hdr v ]
        (read_length-IsSizes tag first ds))

-- `read` takes the value that stands encoded at the front of the input, with what follows it, and
-- refuses the input only when none does: a tag, its contents' length in one byte below 128 or in one to
-- four bytes whose number the byte before them gives, and then as many bytes of contents.
pub read-IsRead : (d : List ℕ) → IsRead d (read d)
read-IsRead d = from (read d) refl (read-Sound d)
  where
    none_some : {r : Tlv × List ℕ} → none ≡ some r → ⊥
    none_some z = cc

    back : (t : Tlv) (rest : List ℕ) → IsEncoded d t rest → read d ≡ some (t, rest)
    back t rest v = ap read v.whole ∙ read-append t v.header rest v.sizes v.full

    from : (o : Option (Tlv × List ℕ)) → read d ≡ o → Sound d o → IsRead d o
    from none e v = refused (λ t rest w. none_some (sym e ∙ back t rest w))
    from (some (t, rest)) e v = taken t rest v
