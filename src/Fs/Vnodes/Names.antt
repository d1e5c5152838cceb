-- ===== src/Fs/Vnodes/Names.antt =====
-- Names in fixed buffers: what the byte loops compare and store.
use barry_os.Common.Bits.{and_right, and_left}
use barry_os.Common.{
  ◌≡◌, ◌≤◌, true, ◌+◌, ◌∷◌, ◌↔◌, zero, arith, refl, min, ℕ_discrete, ap, take_all, ◌&&◌,
  take-write_at, get_or, length-set, ◌==◌, write_at, ◌∙◌, length-write_at, sym, ap₂, ==→eq,
  length-take, [],
}
use barry_os.Fs.Vnodes.{
  Vnode, max_name, set_name_raw, same_bytes, has_name, List, ℕ, length, take, suc,
}

-- The bytes in use of a vnode's name buffer.
abbrev pub name_of : Vnode → List ℕ
name_of v = take v.name_len v.name

-- The buffer has its full size and the length leaves room for the terminator.
pub record IsNamed (v : Vnode) : Type 0 where
  pub buffer : length v.name ≡ max_name + 1
  pub short : v.name_len ≤ max_name

same_bytes_shift :
    (k j : ℕ) (x y : ℕ) (xs ys : List ℕ)
    → same_bytes k (suc j) (x ∷ xs) (y ∷ ys) ≡ same_bytes k j xs ys
unfolding same_bytes
same_bytes_shift zero j x y xs ys = refl
same_bytes_shift (suc k) j x y xs ys =
    let next : suc j + 1 ≡ suc (j + 1) = omega arith in
    rw next (ap (◌&&◌ (get_or xs j 0 == get_or ys j 0)) (same_bytes_shift k (j + 1) x y xs ys))

same_bytes_iff :
    (k : ℕ) (xs ys : List ℕ)
    → k ≤ length xs
    → length ys ≡ k
    → (same_bytes k 0 xs ys ≡ true) ↔ (take k xs ≡ ys)
unfolding same_bytes
same_bytes_iff zero xs [] h e = (λ _. refl, λ _. refl)
same_bytes_iff (suc k) (x ∷ xs) (y ∷ ys) h e =
    let rest = same_bytes_iff k xs ys (omega arith) (omega arith) in
    rw (same_bytes_shift k 0 x y xs ys) (
      λ t. ap₂ ◌∷◌ (==→eq _ _ (and_left _ _ t)) (rest.0 (and_right _ _ t)),
      λ p. let q : x ≡ y = cc in let r : take k xs ≡ ys = cc in ground (arith, rest.1 r),
    )
same_bytes_iff k xs ys h e = absurd (omega arith)

-- For a vnode whose name fits its buffer, the comparison of `lookup` is equality of names.
pub has_name_iff : (v : Vnode) (b : List ℕ) → IsNamed v → (has_name v b ≡ true) ↔ (name_of v ≡ b)
unfolding has_name
has_name_iff v b n = elim (ℕ_discrete v.name_len (length b)) [
  | yes e ↦
      let it = same_bytes_iff v.name_len v.name b (omega (arith, n.buffer, n.short)) (sym e) in
      (λ t. it.0 (and_right _ _ t), λ p. ground (arith, it.1 p))
  | no ne ↦ (
    λ t. absurd (ne (==→eq _ _ (and_left _ _ t))),
    λ p. absurd (ne (omega (arith, ap length p, length-take v.name_len v.name, n.buffer, n.short))),
  )
]

-- A name that fits is stored whole, in a buffer of the full size.
pub name_of-set_name_raw :
    (v : Vnode) (b : List ℕ)
    → IsNamed v
    → length b ≤ max_name
    → (name_of (set_name_raw v b) ≡ b) × IsNamed (set_name_raw v b)
unfolding set_name_raw
name_of-set_name_raw v b n h =
    let fits : min (length b) max_name ≡ length b = omega arith in
    rw (fits, take_all (length b) b (omega arith))
      (
        take-write_at v.name b 0 0 (omega (arith, n.buffer)),
        record {
          buffer =
              length-set (write_at v.name 0 b) (length b) 0 ∙ length-write_at b v.name 0 ∙ n.buffer;
          short = h;
        },
      )
