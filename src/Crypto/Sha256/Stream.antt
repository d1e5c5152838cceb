-- ===== src/Crypto/Sha256/Stream.antt =====
-- The buffered hash against the hash of one byte at a time, and against the padded message.
use barry_os.Crypto.Sha256.Machine.{absorb, absorb_block, absorb_few, absorb-append}
use barry_os.Common.{
  List, ◌<◌, ℕ, length, ◌≡◌, take, ◌++◌, ◌+◌, ◌≤◌, Bool-cases, arith, if◌then◌else◌, drop, ltb, [],
  length-take, ◌==◌, take-write_at_end, suc, ◌⊎◌, inl, ◌-◌, drop_all, length-write_at, sym, ◌∙◌, ap,
  inr, take_all, ==→eq, refl, take-append-drop, ==→ne, ltb→lt, length-drop, ltb→ge, zero, ◌∷◌, ap₂,
}
use barry_os.Crypto.Sha256.{Sha256, flush, fill, whole_blocks, compress, update, keep_tail, add64}

-- The bytes of the block begun stand at the front of the buffer.
pub record IsBuffered (s : Sha256) : Type 0 where
  pub short : s.buf_len < 64
  pub sized : length s.buf ≡ 64

abbrev pub pending : Sha256 → List ℕ × List ℕ
pending s = (s.h, take s.buf_len s.buf)

-- A buffer that was written behind `p`, and emptied if that has filled it.
pub flush_lem :
    (s : Sha256) (p d : List ℕ)
    → take s.buf_len s.buf ≡ p ++ d
    → s.buf_len ≡ length p + length d
    → length p < 64
    → s.buf_len ≤ 64
    → length s.buf ≡ 64
    → (pending (flush s) ≡ absorb (s.h, p) d) × IsBuffered (flush s)
unfolding flush
flush_lem s p d ep en lt le sized = elim (Bool-cases (s.buf_len == 64)) [
  | inl full ↦
      let whole : s.buf ≡ p ++ d =
        sym (take_all s.buf_len s.buf (omega (arith, ==→eq _ _ full))) ∙ ep in
      rw full (
        ap (λ b. (compress s.h b, [])) whole
            ∙ sym (absorb_block d s.h p lt (omega (arith, ==→eq _ _ full))),
        record { short = omega arith; sized = sized },
      )
  | inr more ↦ rw more (
    ap (λ q. (s.h, q)) ep ∙ sym (absorb_few d s.h p (omega (arith, ==→ne _ _ more))),
    record { short = omega (arith, ==→ne _ _ more); sized = sized },
  )
]

flush-total : (s : Sha256) → (flush s).total ≡ s.total
unfolding flush
flush-total s = ground arith

-- How many bytes the block begun still takes.
abbrev taken : Sha256 → List ℕ → ℕ
taken s d = if ltb (length d) (64 - s.buf_len) then length d else 64 - s.buf_len

fill_lem :
    (s : Sha256) (d : List ℕ)
    → IsBuffered s
    → (pending (fill s d).0 ≡ absorb (pending s) (take (taken s d) d)) × IsBuffered (fill s d).0
unfolding fill
fill_lem s d v =
    flush_lem _ (take s.buf_len s.buf) (take n d)
      (take-write_at_end (take n d) s.buf s.buf_len (s.buf_len + n) (omega (arith, front))
        (omega (arith, below, v.sized)))
      (omega (arith, front, length-take s.buf_len s.buf, v.short, v.sized))
      (omega (arith, length-take s.buf_len s.buf, v.short)) (omega (arith, below, v.short))
      (length-write_at (take n d) s.buf s.buf_len ∙ v.sized)
  where
    n : ℕ
    n = taken s d

    below : (n ≤ length d) × (s.buf_len + n ≤ 64)
    below = ground (arith, v.short)

    front : length (take n d) ≡ n
    front = omega (arith, length-take n d, below)

-- When bytes are left over, the block was completed.
fill_rest :
    (s : Sha256) (d : List ℕ)
    → IsBuffered s
    → ((fill s d).1 ≡ drop (taken s d) d) × (((fill s d).1 ≡ []) ⊎ ((fill s d).0.buf_len ≡ 0))
unfolding fill flush
fill_rest s d v = elim (Bool-cases (ltb (length d) (64 - s.buf_len))) [
  | inl few ↦ (refl, inl (rw few (drop_all (length d) d (omega arith))))
  | inr more ↦ (refl, inr (rw more (ground (arith, v.short))))
]

fill-total : (s : Sha256) (d : List ℕ) → (fill s d).0.total ≡ s.total
unfolding fill
fill-total s d = flush-total _

-- The loop leaves less than a block, and takes whole blocks off the input.
whole_blocks_lem :
    (fuel : ℕ) (s : Sha256) (d : List ℕ)
    → length d ≤ fuel
    → s.buf_len ≡ 0
    → (absorb ((whole_blocks fuel s d).0.h, []) (whole_blocks fuel s d).1 ≡ absorb (s.h, []) d)
      × (length (whole_blocks fuel s d).1 < 64)
      × ((whole_blocks fuel s d).0.buf_len ≡ 0)
      × ((whole_blocks fuel s d).0.buf ≡ s.buf)
      × ((whole_blocks fuel s d).0.total ≡ s.total)
unfolding whole_blocks
whole_blocks_lem zero s d le e = (refl, omega arith, e, refl, refl)
whole_blocks_lem (suc fuel) s d le e = elim (Bool-cases (ltb (length d) 64)) [
  | inl few ↦ rw few (refl, ltb→lt _ _ few, e, refl, refl)
  | inr more ↦
      let next : Sha256 = record s { h = compress s.h (take 64 d) } in
      let (same, short, zero_len, buf, total) =
        whole_blocks_lem fuel next (drop 64 d) (omega (arith, length-drop 64 d, ltb→ge _ _ more))
          e in
      rw more (same ∙ block (ltb→ge _ _ more), short, zero_len, buf, total)
]
  where
    block : 64 ≤ length d → absorb (compress s.h (take 64 d), []) (drop 64 d) ≡ absorb (s.h, []) d
    block h =
        ap (λ t. absorb t (drop 64 d))
          (sym (absorb_block (take 64 d) s.h [] (omega arith) (omega (arith, length-take 64 d))))
        ∙ sym (absorb-append (take 64 d) (drop 64 d) (s.h, []))
        ∙ ap (absorb (s.h, [])) (take-append-drop 64 d)

pending_empty : (s : Sha256) → s.buf_len ≡ 0 → pending s ≡ (s.h, [])
pending_empty s e = rw e

keep_tail_lem :
    (s : Sha256) (d : List ℕ)
    → s.buf_len ≡ 0
    → length s.buf ≡ 64
    → length d < 64
    → (pending (keep_tail s d) ≡ (s.h, d))
      × IsBuffered (keep_tail s d)
      × ((keep_tail s d).total ≡ s.total)
unfolding keep_tail
keep_tail_lem s [] e sized lt =
    (pending_empty s e, record { short = omega arith; sized = sized }, refl)
keep_tail_lem s (b ∷ d) e sized lt = (
  ap (λ l. (s.h, l))
      (take-write_at_end (b ∷ d) s.buf 0 (length (b ∷ d)) (omega arith) (omega arith)),
  record { short = lt; sized = length-write_at (b ∷ d) s.buf 0 ∙ sized },
  refl,
)

-- What `update` does with the bytes behind those that completed a block.
abbrev after_fill : Sha256 → List ℕ → Sha256
after_fill s d = let (done, tail) = whole_blocks (length d) s d in keep_tail done tail

abbrev Absorbs : Sha256 → List ℕ → Sha256 → Type 0
Absorbs s d t = (pending t ≡ absorb (pending s) d) × IsBuffered t × (t.total ≡ s.total)

after_fill_lem :
    (s : Sha256) (d : List ℕ)
    → IsBuffered s
    → (d ≡ []) ⊎ (s.buf_len ≡ 0)
    → Absorbs s d (after_fill s d)
unfolding absorb keep_tail whole_blocks
after_fill_lem s [] v (inl e) = (refl, v, refl)
after_fill_lem s (b ∷ d) v (inl e) = cc
after_fill_lem s d v (inr e) =
    let (same, short, at_start, buf, total) = whole_blocks_lem (length d) s d (omega arith) e in
    let (kept, valid, keeps) =
      keep_tail_lem (whole_blocks (length d) s d).0 (whole_blocks (length d) s d).1 at_start
        (ap length buf ∙ v.sized) short in
    (
      kept
          ∙ sym (absorb_few (whole_blocks (length d) s d).1 _ [] (omega arith))
          ∙ same
          ∙ ap (λ p. absorb p d) (sym (pending_empty s e)),
      valid,
      keeps ∙ total,
    )

-- `update` feeds its bytes to the machine, and counts them.
pub update_lem :
    (s : Sha256) (d : List ℕ)
    → IsBuffered s
    → (pending (update s d) ≡ absorb (pending s) d)
      × IsBuffered (update s d)
      × ((update s d).total ≡ add64 s.total (length d))
unfolding update
update_lem s d v = elim (Bool-cases (ltb 0 s.buf_len)) [
  | inl begun ↦ rw begun through
  | inr empty ↦ rw empty (
      after_fill_lem counted d (record { short = v.short; sized = v.sized })
        (inr (omega (arith, ltb→ge _ _ empty))))
]
  where
    counted : Sha256
    counted = record s { total = add64 s.total (length d) }

    n : ℕ
    n = taken counted d

    through : Absorbs counted d (after_fill (fill counted d).0 (fill counted d).1)
    through =
        let w : IsBuffered counted = record { short = v.short; sized = v.sized } in
        let (same, filled) = fill_lem counted d w in
        let (left, done) = fill_rest counted d w in
        let (rest, valid, total) =
          after_fill_lem (fill counted d).0 (fill counted d).1 filled done in
        (
          rest
              ∙ ap₂ absorb same left
              ∙ sym (absorb-append (take n d) (drop n d) (pending counted))
              ∙ ap (absorb (pending counted)) (take-append-drop n d),
          valid,
          total ∙ fill-total counted d,
        )
