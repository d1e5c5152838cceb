-- ===== src/Img/Bits/Left.antt =====
-- Reading takes bits from what is left of the input, and never runs out of fuel.
use barry_os.Img.Outcome.{Ensures, Ensures->>=, Ensures-weaken}
use barry_os.Common.{
  ◌≤◌, length, ◌≡◌, ◌+◌, ◌<◌, ◌*◌, ge→ltb, arith, suc, Bool-cases, ltb, inr, ltb→ge, inl, List, leb,
  leb→gt, ltb→lt, ◌∙◌, zero, refl,
}
use barry_os.Img.Bits.{refill, Bits, ℕ, bits_left, new, align, take_bits, load_byte}

-- Less than a byte is buffered between two reads.
pub record IsReader (b : Bits) : Type 0 where
  pub inside : b.at ≤ length b.src
  pub few : b.n ≤ 7

-- After a read of `want` bits, in full: what is left, of the same input.
pub record IsRefilled (b : Bits) (want : ℕ) (r : Bits) : Type 0 where
  pub inside : r.at ≤ length r.src
  pub same_left : bits_left r ≡ bits_left b
  pub enough : want ≤ r.n
  pub few : r.n < want + 8
  pub same_src : r.src ≡ b.src

refill_lem :
    (fuel : ℕ) (b : Bits) (want : ℕ)
    → b.at ≤ length b.src
    → want ≤ b.n + 8 * fuel
    → b.n < want + 8
    → Ensures (IsRefilled b want) (refill fuel b want)
unfolding refill bits_left load_byte
refill_lem zero b want le h few =
    rw (ge→ltb b.n want (omega arith))
      (record { inside = le; same_left = refl; enough = omega arith; few = few; same_src = refl })
refill_lem (suc fuel) b want le h few = elim (Bool-cases (ltb b.n want)) [
  | inr have ↦ rw have (record {
    inside = le;
    same_left = refl;
    enough = omega (arith, ltb→ge _ _ have);
    few = few;
    same_src = refl;
  })
  | inl wanting ↦ elim (Bool-cases (leb (length b.src) b.at)) [
    | inl at_end ↦ rw (wanting, at_end) tt
    | inr more ↦
        rw (wanting, more)
          (Ensures-weaken (IsRefilled (load_byte b) want) (IsRefilled b want)
            (refill fuel (load_byte b) want)
            (refill_lem fuel (load_byte b) want (omega (arith, leb→gt _ _ more)) (omega arith)
              (omega (arith, ltb→lt _ _ wanting)))
            (λ r v. record {
              inside = v.inside;
              same_left = v.same_left ∙ omega (arith, leb→gt _ _ more);
              enough = v.enough;
              few = v.few;
              same_src = v.same_src;
            }))
  ]
]

-- A value, and the reader after `want` bits.
abbrev pub Took {ℓ} : {A : Type ℓ} → Bits → ℕ → A × Bits → Type 0
Took b want p = IsReader p.1 × (bits_left p.1 + want ≡ bits_left b)

-- A reader that is not ahead of another.
pub record IsWithin (b r : Bits) : Type 0 where
  pub reader : IsReader r
  pub fewer : bits_left r ≤ bits_left b

-- A value, and a reader that has taken a bit at least.
pub record IsShorter (b r : Bits) : Type 0 where
  pub reader : IsReader r
  pub fewer : bits_left r < bits_left b

pub take_bits_lem : (b : Bits) (want : ℕ) → IsReader b → Ensures (Took b want) (take_bits b want)
unfolding take_bits
take_bits_lem b want v =
    Ensures->>= (IsRefilled b want) (Took b want) (refill want b want) _
      (refill_lem want b want v.inside (omega arith) (omega (arith, v.few)))
      (λ r w. (
        record { inside = w.inside; few = omega (arith, w.few) },
        unfold bits_left in omega (arith, w.enough, w.same_left),
      ))

pub new-IsReader : (src : List ℕ) → IsReader (new src)
unfolding new
new-IsReader src = record { inside = omega arith; few = omega arith }

pub align-IsWithin : (b : Bits) → IsReader b → IsWithin b (align b)
unfolding align bits_left
align-IsWithin b v = record {
  reader = record { inside = omega (arith, v.inside); few = omega arith };
  fewer = omega (arith, v.few);
}

-- A reader that stands where a stored block ends.
pub skip-IsWithin :
    (b : Bits) (at : ℕ)
    → b.at ≤ at
    → at ≤ length b.src
    → b.n ≤ 7
    → IsWithin b (record b { at = at })
unfolding bits_left
skip-IsWithin b at ahead inside few = record {
  reader = record { inside = inside; few = few };
  fewer = omega arith;
}
