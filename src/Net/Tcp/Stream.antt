-- ===== src/Net/Tcp/Stream.antt =====
-- kernel/src/net/tcp.rs: the receive ring holds the stream in order, across the wrap of the array and of
-- the counters.
use barry_os.Common.{
  ℕ, ◌<◌, List, ◌≡◌, length, ◌%◌, get_or, ◌≤◌, if-cases, ◌≢◌, ◌+◌, suc, leb, arith, ◌∷◌, ap, ◌∙◌,
  zero, ne→==, eq→==, refl, [], min, take, drop, length-take, ◌-◌, true, leb→le, length-drop,
  list_ext, sym, get_or-drop, get_or-take, ◌==◌, false, ==→eq, clash, Bool,
}
use barry_os.Common.Words.{u32_mod, add32}
use barry_os.Net.Tcp.Ring.{
  Ring, rx_cap, rx_len, rx_release, read_bytes, rx_read_at, rx_peek, put, write_bytes,
}

pub record IsRing (r : Ring) : Type 0 where
  pub head_word : r.head < u32_mod
  pub tail_word : r.tail < u32_mod
  pub fits : rx_len r ≤ rx_cap

length-read_bytes : (buf : ℕ → ℕ) (at n i : ℕ) → length (read_bytes buf at n i) ≡ n
unfolding read_bytes
length-read_bytes buf at zero i = refl
length-read_bytes buf at (suc n) i = ap suc (length-read_bytes buf at n (i + 1))

get_or-read_bytes :
    (buf : ℕ → ℕ) (at n i j : ℕ)
    → j < n
    → get_or (read_bytes buf at n i) j 0 ≡ buf ((at + (i + j)) % rx_cap)
unfolding read_bytes
get_or-read_bytes buf at zero i j h = absurd (omega arith)
get_or-read_bytes buf at (suc n) i zero h = ap (λ k. buf ((at + k) % rx_cap)) {x = i} (omega arith)
get_or-read_bytes buf at (suc n) i (suc j) h =
    get_or-read_bytes buf at n (i + 1) j (omega arith)
    ∙ ap (λ k. buf ((at + k) % rx_cap)) {x = i + 1 + j} (omega arith)

-- A write in the loop, apart from it and at it.
pub write_bytes_other :
    (buf : ℕ → ℕ) (tail i : ℕ) (bs : List ℕ) (k : ℕ)
    → ((j : ℕ) → j < length bs → k ≢ (tail + (i + j)) % rx_cap)
    → write_bytes buf tail i bs k ≡ buf k
unfolding write_bytes put
write_bytes_other buf tail i [] k h = refl
write_bytes_other buf tail i (b ∷ bs) k h =
    write_bytes_other (put buf ((tail + i) % rx_cap) b) tail (i + 1) bs k
      (λ j lt e. h (suc j) (omega arith) (omega (arith, e)))
    ∙ rw (ne→== k ((tail + i) % rx_cap) (λ e. h 0 (omega arith) (omega (arith, e)))) refl

pub write_bytes_at :
    (buf : ℕ → ℕ) (tail i : ℕ) (bs : List ℕ) (j : ℕ)
    → j < length bs
    → i + length bs ≤ rx_cap
    → write_bytes buf tail i bs ((tail + (i + j)) % rx_cap) ≡ get_or bs j 0
unfolding write_bytes put
write_bytes_at buf tail i [] j h fit = absurd (omega arith)
write_bytes_at buf tail i (b ∷ bs) zero h fit =
    write_bytes_other (put buf ((tail + i) % rx_cap) b) tail (i + 1) bs ((tail + (i + 0)) % rx_cap)
      (λ j lt e. absurd (omega (arith, e, lt, fit)))
    ∙ rw (eq→== ((tail + (i + 0)) % rx_cap) ((tail + i) % rx_cap) (omega arith)) refl
write_bytes_at buf tail i (b ∷ bs) (suc j) h fit =
    ap (λ k. write_bytes (put buf ((tail + i) % rx_cap) b) tail (i + 1) bs ((tail + k) % rx_cap))
      {x = i + suc j} {y = i + 1 + j} (omega arith)
    ∙ write_bytes_at (put buf ((tail + i) % rx_cap) b) tail (i + 1) bs j (omega arith) (omega arith)

rx_read_at-read_bytes :
    (r : Ring) (offset room : ℕ)
    → rx_read_at r offset room
      ≡ read_bytes r.buf (r.head % rx_cap + offset) (min (rx_len r - offset) room) 0
unfolding rx_read_at read_bytes
rx_read_at-read_bytes r offset room =
    let at = r.head % rx_cap + offset in
    if-cases (λ bs. bs ≡ read_bytes r.buf at (min (rx_len r - offset) room) 0)
      (leb (rx_len r) offset) [] _
      (λ t. ap (λ n. read_bytes r.buf at n 0) {x = 0} (omega (arith, leb→le _ _ t))) λ f. refl

pub length-rx_read_at :
    (r : Ring) (offset room : ℕ) → length (rx_read_at r offset room) ≡ min (rx_len r - offset) room
length-rx_read_at r offset room =
    ap length (rx_read_at-read_bytes r offset room) ∙ length-read_bytes r.buf _ _ 0

get_or-rx_read_at :
    (r : Ring) (offset room j : ℕ)
    → j < min (rx_len r - offset) room
    → get_or (rx_read_at r offset room) j 0 ≡ r.buf ((r.head + offset + j) % rx_cap)
get_or-rx_read_at r offset room j h =
    ap (λ bs. get_or bs j 0) (rx_read_at-read_bytes r offset room)
    ∙ get_or-read_bytes r.buf (r.head % rx_cap + offset) _ 0 j h
    ∙ ap r.buf (omega arith)

-- The bytes that the ring holds, the oldest first.
abbrev pub contents : Ring → List ℕ
contents r = rx_peek r (rx_len r)

pub length-contents : (r : Ring) → length (contents r) ≡ rx_len r
unfolding rx_peek
length-contents r = length-rx_read_at r 0 (rx_len r) ∙ omega arith

pub get_or-contents :
    (r : Ring) (j : ℕ) → j < rx_len r → get_or (contents r) j 0 ≡ r.buf ((r.head + j) % rx_cap)
unfolding rx_peek
get_or-contents r j h = get_or-rx_read_at r 0 (rx_len r) j (omega arith) ∙ ap r.buf (omega arith)

-- A copy of at most `room` bytes from an offset is that part of what the ring holds.
pub rx_read_at_lem :
    (r : Ring) (offset room : ℕ) → rx_read_at r offset room ≡ take room (drop offset (contents r))
rx_read_at_lem r offset room =
    let copied = length-rx_read_at r offset room in
    let part = length-take room (drop offset (contents r)) in
    let rest = length-drop offset (contents r) in
    let all = length-contents r in
    list_ext _ _ 0 (omega (arith, copied, part, rest, all)) λ j lt.
      let below : j < min (rx_len r - offset) room = omega (arith, copied) in
      get_or-rx_read_at r offset room j below
      ∙ ap r.buf {y = (r.head + (offset + j)) % rx_cap} (omega arith)
      ∙ sym (get_or-contents r (offset + j) (omega arith))
      ∙ sym (get_or-drop offset (contents r) j 0)
      ∙ sym (get_or-take room (drop offset (contents r)) j 0 (omega arith))

-- The ring with `m` bytes given back, and with `m` bytes more.
rx_len-head :
    (r : Ring) (m : ℕ)
    → IsRing r
    → m ≤ rx_len r
    → rx_len (record r { head = add32 r.head m }) ≡ rx_len r - m
unfolding rx_len
rx_len-head r m v h = omega (arith, v.head_word, v.tail_word, v.fits, h)

drop-contents :
    (r : Ring) (n : ℕ)
    → IsRing r
    → contents (record r { head = add32 r.head (min n (rx_len r)) }) ≡ drop n (contents r)
drop-contents r n v =
    let m = min n (rx_len r) in
    let r' = record r { head = add32 r.head m } in
    let left = length-contents r' in
    let fewer = rx_len-head r m v (omega arith) in
    let rest = length-drop n (contents r) in
    let all = length-contents r in
    list_ext _ _ 0 (omega (arith, left, fewer, rest, all)) λ j lt.
      get_or-contents r' j (omega (arith, left))
      ∙ ap r.buf {y = (r.head + (n + j)) % rx_cap} (omega (arith, left, fewer))
      ∙ sym (get_or-contents r (n + j) (omega (arith, left, fewer)))
      ∙ sym (get_or-drop n (contents r) j 0)

head-IsRing :
    (r : Ring) (m : ℕ) → IsRing r → m ≤ rx_len r → IsRing (record r { head = add32 r.head m })
head-IsRing r m v h = record {
  head_word = omega arith;
  tail_word = v.tail_word;
  fits = omega (arith, rx_len-head r m v h, v.fits);
}

-- Bytes given back are the oldest ones, the others stay; the window is to be announced if it was closed.
pub rx_release_lem :
    (r : Ring) (n : ℕ)
    → IsRing r
    → let (announce, r') = rx_release r n in
      (contents r' ≡ drop n (contents r)) × IsRing r' × (announce ≡ true → rx_len r ≡ rx_cap)
unfolding rx_release
rx_release_lem r n v =
    let m = min n (rx_len r) in
    if-cases
      (λ (out : Bool × Ring).
        (contents out.1 ≡ drop n (contents r)) × IsRing out.1 × (out.0 ≡ true → rx_len r ≡ rx_cap))
      (m == 0) (false, r) _
      (λ t. (
        ap (λ h. contents (record r { head = h })) {x = r.head} {y = add32 r.head m}
              (omega (arith, ==→eq m 0 t, v.head_word))
            ∙ drop-contents r n v,
        v,
        λ e. absurd (clash e refl),
      ))
      λ f. (
        drop-contents r n v,
        head-IsRing r m v (omega arith),
        λ e. omega (arith, leb→le rx_cap (rx_len r) e, v.fits),
      )
