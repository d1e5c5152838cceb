-- ===== src/Fs/RamFs/Blocks.antt =====
-- What the allocation and the release of pool bytes do to the bytes that the free list holds.
use barry_os.Common.Sums.{sum_below, sum_below-eq, sum_below-set, sum_below-suc, sum_below_one}
use barry_os.Common.{
  ℕ, Bool-cases, arith, ◌≡◌, ◌<◌, ◌≤◌, if◌then◌else◌, ltb, ◌⊎◌, leb, some, set, ◌+◌, ◌-◌,
  none-ne-some, ◌&&◌, get_or, inl, length-set, get_or-set_self, refl, ap, inr, ◌∙◌, leb→le, dec_lt,
  get_or-set_ne, ◌==◌, sym, ◌||◌, leb→gt,
}
use Prim.Native.Nat.{suc, zero}
use barry_os.Fs.RamFs.{
  RamFs, find_fit, take_block, List, free_data, length, release, FreeBlock, free_max, block,
  no_block,
}

-- 1 when a block holds an offset.
unfoldable pub holds : ℕ → ℕ → ℕ → ℕ
holds off size a = if leb off a && ltb a (off + size) then 1 else 0

pub holds-split :
    (off n size a : ℕ) → n ≤ size → holds (off + n) (size - n) a + holds off n a ≡ holds off size a
unfolding holds
holds-split off n size a h = ground arith

pub holds_le : (off n size a : ℕ) → n ≤ size → holds off n a ≤ holds off size a
unfolding holds
holds_le off n size a h = ground arith

pub holds_in : (off size a : ℕ) → off ≤ a → a < off + size → holds off size a ≡ 1
unfolding holds
holds_in off size a h k = ground arith

pub holds_out : (off size a : ℕ) → a < off ⊎ off + size ≤ a → holds off size a ≡ 0
unfolding holds
holds_out off size a (inl h) = ground arith
holds_out off size a (inr h) = ground arith

abbrev held : ℕ → FreeBlock → ℕ
held a b = holds b.off b.size a

-- How many of the first `k` blocks hold an offset.
unfoldable pub owners : List FreeBlock → ℕ → ℕ → ℕ
owners free k a = sum_below k (λ i. held a (get_or free i no_block))

owners-set :
    (free : List FreeBlock) (k i a : ℕ) (b : FreeBlock)
    → i < k
    → i < length free
    → owners (set free i b) k a + held a (get_or free i no_block) ≡ owners free k a + held a b
unfolding owners
owners-set free k i a b lt within =
    let self = get_or-set_self free i b no_block within in
    sum_below-set k i (λ j. held a (get_or free j no_block))
      (λ j. held a (get_or (set free i b) j no_block)) lt
      (λ j lt' ne. ap (held a) (get_or-set_ne free i j b no_block (λ e. ne (sym e))))
    ∙ ap (λ c. owners free k a + held a c) self

owners-past :
    (free : List FreeBlock) (k i a : ℕ) (b : FreeBlock)
    → k ≤ i
    → owners (set free i b) k a ≡ owners free k a
unfolding owners
owners-past free k i a b le =
    sum_below-eq k _ _ λ j lt. ap (held a) (get_or-set_ne free i j b no_block (λ e. omega arith))

owners-suc :
    (free : List FreeBlock) (k a : ℕ)
    → owners free (suc k) a ≡ owners free k a + held a (get_or free k no_block)
unfolding owners
owners-suc free k a = sum_below-suc k (λ i. held a (get_or free i no_block))

owners-push :
    (free : List FreeBlock) (k a : ℕ) (b : FreeBlock)
    → k < length free
    → owners (set free k b) (suc k) a ≡ owners free k a + held a b
owners-push free k a b lt =
    rw
      (
        owners-suc (set free k b) k a,
        owners-past free k k a b (omega arith),
        get_or-set_self free k b no_block lt,
      )
      refl

-- The last block in the place of block `i`.
owners-drop :
    (free : List FreeBlock) (m i a : ℕ)
    → i ≤ m
    → m < length free
    → owners (set free i (get_or free m no_block)) m a + held a (get_or free i no_block)
      ≡ owners free (suc m) a
owners-drop free m i a le lt = elim (dec_lt i m) [
  | yes below ↦
      owners-set free m i a (get_or free m no_block) below (omega arith) ∙ sym (owners-suc free m a)
  | no above ↦
      let e : i ≡ m = omega arith in
      rw (e, owners-past free m m a (get_or free m no_block) (omega arith))
        (sym (owners-suc free m a))
]

-- How many listed blocks hold an offset.
unfoldable pub free_owners : RamFs → ℕ → ℕ
free_owners s a = owners s.free s.free_count a

pub free_owners_one :
    (s : RamFs) (i a : ℕ)
    → i < s.free_count
    → holds (block s i).off (block s i).size a ≤ free_owners s a
unfolding free_owners owners
free_owners_one s i a lt = sum_below_one s.free_count i (λ j. held a (get_or s.free j no_block)) lt

pub record IsList (s : RamFs) : Type 0 where
  pub sized : length s.free ≡ free_max
  pub counted : s.free_count ≤ free_max
  pub started : 1 ≤ s.next_offset

-- The block found has the room.
pub find_fit_lem :
    (s : RamFs) (n k i j : ℕ)
    → find_fit s n k i ≡ some j
    → (i ≤ j) × (j < i + k) × (n ≤ (block s j).size)
unfolding find_fit
find_fit_lem s n zero i j e = absurd (none-ne-some e)
find_fit_lem s n (suc k) i j e = elim (Bool-cases (leb n (block s i).size)) [
  | inl t ↦
      let here : i ≡ j = ground (arith, t) in rw (← here) (omega arith, omega arith, leb→le _ _ t)
  | inr f ↦
      let (a, b, c) = find_fit_lem s n k (i + 1) j (ground (arith, f)) in
      (omega arith, omega arith, c)
]

last : (k : ℕ) → 0 < k → suc (k - 1) ≡ k
last k h = omega arith

pub take_block-owners :
    (s : RamFs) (n i a : ℕ)
    → IsList s
    → i < s.free_count
    → n ≤ (block s i).size
    → free_owners (take_block s n i) a + holds (block s i).off n a ≡ free_owners s a
unfolding free_owners take_block
take_block-owners s n i a l lt fits = elim (Bool-cases (ltb n (block s i).size)) [
  | inl t ↦ rw (t) (
      omega (
        arith,
        owners-set s.free s.free_count i a
            (record { off = (block s i).off + n; size = (block s i).size - n }) lt
            (omega (arith, l.sized, l.counted)),
        holds-split (block s i).off n (block s i).size a fits,
      ))
  | inr f ↦
      let whole : n ≡ (block s i).size = ground (arith, f) in
      rw (f, whole)
        (owners-drop s.free (s.free_count - 1) i a (omega arith) (omega (arith, l.sized, l.counted))
          ∙ ap (λ k. owners s.free k a) (last s.free_count (omega arith)))
]

pub take_block-IsList : (s : RamFs) (n i : ℕ) → IsList s → IsList (take_block s n i)
unfolding take_block
take_block-IsList s n i l = elim (Bool-cases (ltb n (block s i).size)) [
  | inl t ↦
      rw (t) (record {
        sized = length-set s.free i _ ∙ l.sized;
        counted = l.counted;
        started = l.started;
      })
  | inr f ↦ rw (f) (record {
    sized = length-set s.free i _ ∙ l.sized;
    counted = omega (arith, l.counted);
    started = l.started;
  })
]

-- What a release changes: it lists the block, or it leaves the block lost.
pub record Releases (s s' : RamFs) (off size : ℕ) : Type 0 where
  pub listed : IsList s → IsList s'
  pub owners_le : (a : ℕ) → IsList s → free_owners s' a ≤ free_owners s a + holds off size a
  pub same_vfs : s'.vfs ≡ s.vfs
  pub same_pool : s'.pool ≡ s.pool
  pub same_next : s'.next_offset ≡ s.next_offset

keep : (s : RamFs) (off size : ℕ) → Releases s s off size
keep s off size = record {
  listed = λ l. l;
  owners_le = λ a l. omega arith;
  same_vfs = refl;
  same_pool = refl;
  same_next = refl;
}

pub free_data_lem : (s : RamFs) (off size : ℕ) → Releases s (free_data s off size) off size
unfolding free_data free_owners
free_data_lem s off size = elim (Bool-cases (off == 0 || size == 0)) [
  | inl t ↦ rw (t) (keep s off size)
  | inr f ↦ elim (Bool-cases (leb free_max s.free_count)) [
    | inl t ↦ rw (f, t) (keep s off size)
    | inr g ↦ rw (f, g) (push (leb→gt _ _ g))
  ]
]
  where
    b : FreeBlock
    b = record { off = off; size = size }

    push :
        s.free_count < free_max
        → Releases s
            (record s { free = set s.free s.free_count b; free_count = s.free_count + 1 })
            off
            size
    push lt = record {
      listed = λ l. record {
        sized = length-set s.free s.free_count b ∙ l.sized;
        counted = omega arith;
        started = l.started;
      };
      owners_le = λ a l.
          let next : s.free_count + 1 ≡ suc s.free_count = omega arith in
          rw (next) (omega (arith, owners-push s.free s.free_count a b (omega (arith, l.sized))));
      same_vfs = refl;
      same_pool = refl;
      same_next = refl;
    }

pub release_lem : (s : RamFs) (off size : ℕ) → Releases s (release s off size) off size
unfolding release
release_lem s off size = elim (Bool-cases (ltb 0 size)) [
  | inl t ↦ rw (t) (free_data_lem s off size)
  | inr f ↦ rw (f) (keep s off size)
]
