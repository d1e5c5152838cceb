-- ===== src/Crypto/Sha256/Message.antt =====
-- The hash of a message given in any parts, against FIPS 180-4: the message is padded to whole
-- blocks, which are compressed one after the other.
use barry_os.Common.Words.{u64_mod, mul64}
use barry_os.Crypto.Sha256.Stream.{IsBuffered, pending, flush_lem, update_lem}
use barry_os.Crypto.Sha256.Machine.{
  digest_blocks, absorb, absorb-append, absorb-digest_blocks, absorb-length,
}
use barry_os.Crypto.Sha256.{
  be64, Sha256, update_no_len, be32, words_to_bytes, flush, h0, padding, finish, new, update,
  compress,
}
use barry_os.Common.{
  concat, ℕ, List, ◌-◌, length, ◌%◌, ◌++◌, set, ◌≡◌, ◌/◌, ◌∷◌, replicate, ◌+◌, ◌*◌, arith, [], ◌∙◌,
  length-append, ap, length-replicate, sym, refl, subst, append-nil, ap₂, take, append_assoc,
  take-set, if◌then◌else◌, length-take, ltb, length-set, suc, take-replicate, take-write_at_end,
  drop, zero,
}

push_byte :
    (s : Sha256) (b : ℕ)
    → IsBuffered s
    → let t = flush (record s { buf = set s.buf s.buf_len b; buf_len = s.buf_len + 1 }) in
      (pending t ≡ absorb (pending s) (b ∷ [])) × IsBuffered t
push_byte s b v =
    flush_lem _ (take s.buf_len s.buf) (b ∷ [])
      (take-set s.buf_len s.buf b (omega (arith, v.short, v.sized)))
      (omega (arith, length-take s.buf_len s.buf, v.short, v.sized))
      (omega (arith, length-take s.buf_len s.buf, v.short)) (omega (arith, v.short))
      (length-set s.buf s.buf_len b ∙ v.sized)

update_no_len_lem :
    (d : List ℕ) (s : Sha256) → IsBuffered s → pending (update_no_len s d) ≡ absorb (pending s) d
unfolding update_no_len
update_no_len_lem [] s v = unfold absorb in refl
update_no_len_lem (b ∷ d) s v =
    let (same, valid) = push_byte s b v in
    update_no_len_lem d _ valid
    ∙ ap (λ p. absorb p d) same
    ∙ sym (absorb-append (b ∷ []) d (pending s))

-- The number of zeroes that fill the last block, after 0x80 and before the eight bytes of length.
unfoldable pub zeroes : ℕ → ℕ
zeroes n = (119 - n % 64) % 64

-- The padded message of FIPS 180-4: 0x80, zeroes, and the length in bits.
unfoldable pub padded : List ℕ → List ℕ
unfolding zeroes be64
padded m = m ++ (0x80 ∷ (replicate (zeroes (length m)) 0 ++ be64 (8 * length m % u64_mod)))

-- FIPS 180-4: the chaining values after all blocks of the padded message, as bytes.
unfoldable pub sha256 : List ℕ → List ℕ
unfolding padded digest_blocks words_to_bytes
sha256 m = words_to_bytes (digest_blocks (length (padded m) / 64) h0 (padded m))

length-padded : (m : List ℕ) → length (padded m) ≡ 64 * (length (padded m) / 64)
unfolding padded zeroes be64 be32
length-padded m = omega (
  arith,
  length-append m (0x80 ∷ (replicate (zeroes (length m)) 0 ++ be64 (8 * length m % u64_mod))),
  length-append (replicate (zeroes (length m)) 0) (be64 (8 * length m % u64_mod)),
  length-replicate {A = ℕ} (zeroes (length m)) 0,
)

-- What a state that has taken in the bytes of `m` is.
pub record Holds (s : Sha256) (m : List ℕ) : Type 0 where
  pub buffered : IsBuffered s
  pub absorbed : pending s ≡ absorb (h0, []) m
  pub counted : s.total ≡ length m % u64_mod

new-Holds : Holds new []
unfolding absorb
new-Holds = record {
  buffered = record { short = omega arith; sized = refl };
  absorbed = refl;
  counted = refl;
}

update-Holds : (s : Sha256) (m d : List ℕ) → Holds s m → Holds (update s d) (m ++ d)
update-Holds s m d v =
    let (same, valid, total) = update_lem s d v.buffered in
    record {
      buffered = valid;
      absorbed = same ∙ ap (λ p. absorb p d) v.absorbed ∙ sym (absorb-append m d (h0, []));
      counted = omega (arith, total, v.counted, length-append m d);
    }

length-be64 : (x : ℕ) → length (be64 x) ≡ 8
unfolding be64 be32
length-be64 x = refl

-- What was padded is the tail of the padded message.
padding_lem :
    (s : Sha256) (m : List ℕ)
    → Holds s m
    → padding s ≡ 0x80 ∷ (replicate (zeroes (length m)) 0 ++ be64 (8 * length m % u64_mod))
unfolding padding
padding_lem s m v =
    take-write_at_end (be64 bits) (0x80 ∷ replicate 71 0) pad_len (pad_len + 8)
      (omega (arith, length-be64 bits)) (ground (arith, v.buffered.short))
    ∙ ap (λ (l : List ℕ). l ++ be64 bits) front
    ∙ ap (λ (x : ℕ). (0x80 ∷ replicate (zeroes (length m)) 0) ++ be64 x) {x = bits}
        {y = 8 * length m % u64_mod} (omega (arith, v.counted))
  where
    bits : ℕ
    bits = mul64 s.total 8

    pad_len : ℕ
    pad_len = if ltb s.buf_len 56 then 56 - s.buf_len else 120 - s.buf_len

    left : s.buf_len ≡ length m % 64
    left = omega (
      arith,
      length-take s.buf_len s.buf,
      v.buffered.short,
      v.buffered.sized,
      ap (λ (p : List ℕ × List ℕ). length p.1) v.absorbed,
      absorb-length m (h0, []) (omega arith),
    )

    last : pad_len ≡ suc (zeroes (length m))
    last = unfold zeroes in ground (arith, left)

    front : take {A = ℕ} pad_len (0x80 ∷ replicate 71 0) ≡ 0x80 ∷ replicate (zeroes (length m)) 0
    front =
        ap (λ n. take {A = ℕ} n (0x80 ∷ replicate 71 0)) last
        ∙ ap (λ (l : List ℕ). 0x80 ∷ l)
            (subst
              (λ n.
                take {A = ℕ} (zeroes (length m)) (replicate n 0) ≡ replicate (zeroes (length m)) 0)
              {x = zeroes (length m) + (71 - zeroes (length m))} {y = 71}
              (unfold zeroes in omega arith)
              (take-replicate (zeroes (length m)) (71 - zeroes (length m)) 0))

finish_lem : (s : Sha256) (m : List ℕ) → Holds s m → finish s ≡ sha256 m
unfolding finish sha256
finish_lem s m v = ap words_to_bytes (ap (λ (p : List ℕ × List ℕ). p.0) all)
  where
    all :
        pending (update_no_len s (padding s))
        ≡ (digest_blocks (length (padded m) / 64) h0 (padded m), [])
    all =
        update_no_len_lem (padding s) s v.buffered
        ∙ ap₂ absorb v.absorbed (padding_lem s m v)
        ∙ sym (absorb-append m _ (h0, []))
        ∙ unfold padded in
          absorb-digest_blocks (length (padded m) / 64) h0 (padded m) (length-padded m)

-- Several updates.
unfoldable pub update_all : Sha256 → List (List ℕ) → Sha256
update_all s [] = s
update_all s (p ∷ ps) = update_all (update s p) ps

update_all-Holds :
    (ps : List (List ℕ)) (s : Sha256) (m : List ℕ)
    → Holds s m
    → Holds (update_all s ps) (m ++ concat ps)
unfolding update_all concat
update_all-Holds [] s m v = subst (Holds s) (sym (append-nil m)) v
update_all-Holds (p ∷ ps) s m v =
    subst (Holds (update_all (update s p) ps)) (append_assoc m p (concat ps))
      (update_all-Holds ps (update s p) (m ++ p) (update-Holds s m p v))

-- However a message is cut into parts, the hash of the parts is the SHA-256 of FIPS 180-4 of the
-- whole message.
pub finish-update_all : (ps : List (List ℕ)) → finish (update_all new ps) ≡ sha256 (concat ps)
finish-update_all ps =
    finish_lem (update_all new ps) (concat ps) (update_all-Holds ps new [] new-Holds)

words_to_bytes-length : (ws : List ℕ) → length (words_to_bytes ws) ≡ 4 * length ws
unfolding words_to_bytes be32
words_to_bytes-length [] = omega arith
words_to_bytes-length (w ∷ ws) = omega (arith, words_to_bytes-length ws)

digest_blocks-length : (k : ℕ) (h m : List ℕ) → length h ≡ 8 → length (digest_blocks k h m) ≡ 8
unfolding digest_blocks compress
digest_blocks-length zero h m e = e
digest_blocks-length (suc k) h m e = digest_blocks-length k _ (drop 64 m) refl

-- A digest has 32 bytes.
pub length-sha256 : (m : List ℕ) → length (sha256 m) ≡ 32
unfolding sha256
length-sha256 m = omega (
  arith,
  words_to_bytes-length (digest_blocks (length (padded m) / 64) h0 (padded m)),
  digest_blocks-length (length (padded m) / 64) h0 (padded m) refl,
)
