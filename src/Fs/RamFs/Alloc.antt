-- ===== src/Fs/RamFs/Alloc.antt =====
-- `alloc_data`: where the bytes come from, and that they belonged to nobody.
use barry_os.Common.Words.{u64_mod, add64}
use barry_os.Common.{
  ◌≤◌, if◌then◌else◌, ◌≡◌, ◌+◌, ◌≢◌, ◌<◌, ltb, arith, ◌&&◌, Bool-cases, ne→==, Option-cases, inr,
  inl, ltb→ge, refl,
}
use barry_os.Common.{ltb→ge, ap}
use barry_os.Fs.RamFs.{
  RamFs, ℕ, alloc_data, take_block, if◌then◌else◌, ◌+◌, data_pool_size, block, find_fit,
}
use barry_os.Fs.RamFs.Blocks.{
  holds, free_owners, IsList, take_block-IsList, take_block-owners, find_fit_lem,
}

-- 1 for the offsets handed out so far: those below the bump pointer, inside the pool, but not 0.
pub limit : ℕ → ℕ → ℕ
limit next a = if ltb 0 a && ltb a next && ltb a data_pool_size then 1 else 0

pub limit_le : (next a : ℕ) → limit next a ≤ 1
unfolding limit
limit_le next a = ground arith

limit_bump :
    (next n a : ℕ)
    → 1 ≤ next
    → next + n ≤ data_pool_size
    → holds next n a + limit next a ≤ limit (next + n) a
unfolding limit holds
limit_bump next n a pos fits = ground arith

limit_mono : (next n a : ℕ) → limit next a ≤ limit (next + n) a
unfolding limit
limit_mono next n a = ground arith

pub limit_in : (next a : ℕ) → 1 ≤ limit next a → (0 < a) × (a < next) × (a < data_pool_size)
unfolding limit
limit_in next a h = (ground arith, ground arith, ground arith)

pub record Allocates (s s' : RamFs) (off n : ℕ) : Type 0 where
  pub listed : IsList s'
  pub owners_le :
      off ≢ 0
      → (a : ℕ)
      → free_owners s' a + holds off n a + limit s.next_offset a
        ≤ free_owners s a + limit s'.next_offset a
  pub owners_kept :
      (a : ℕ) → free_owners s' a + limit s.next_offset a ≤ free_owners s a + limit s'.next_offset a
  pub same_vfs : s'.vfs ≡ s.vfs
  pub same_pool : s'.pool ≡ s.pool

take_block-next : (s : RamFs) (n i : ℕ) → (take_block s n i).next_offset ≡ s.next_offset
unfolding take_block
take_block-next s n i = ground (arith, Bool-cases (ltb n (block s i).size))

take_block-vfs : (s : RamFs) (n i : ℕ) → (take_block s n i).vfs ≡ s.vfs
unfolding take_block
take_block-vfs s n i = ground (arith, Bool-cases (ltb n (block s i).size))

take_block-pool : (s : RamFs) (n i : ℕ) → (take_block s n i).pool ≡ s.pool
unfolding take_block
take_block-pool s n i = ground (arith, Bool-cases (ltb n (block s i).size))

fit-Allocates :
    (s : RamFs) (n i : ℕ)
    → IsList s
    → i < s.free_count
    → n ≤ (block s i).size
    → Allocates s (take_block s n i) (block s i).off n
fit-Allocates s n i l lt fits = record {
  listed = take_block-IsList s n i l;
  owners_le = λ ne a.
      omega
        (arith, take_block-owners s n i a l lt fits, ap (λ m. limit m a) (take_block-next s n i));
  owners_kept = λ a.
      omega
        (arith, take_block-owners s n i a l lt fits, ap (λ m. limit m a) (take_block-next s n i));
  same_vfs = take_block-vfs s n i;
  same_pool = take_block-pool s n i;
}

bumped : RamFs → ℕ → RamFs
bumped s n = record s { next_offset = s.next_offset + n }

bump-Allocates :
    (s : RamFs) (n : ℕ)
    → IsList s
    → s.next_offset + n ≤ data_pool_size
    → Allocates s (bumped s n) s.next_offset n
unfolding bumped free_owners
bump-Allocates s n l fits = record {
  listed = record { sized = l.sized; counted = l.counted; started = omega (arith, l.started) };
  owners_le = λ ne a. omega (arith, limit_bump s.next_offset n a l.started fits);
  owners_kept = λ a. omega (arith, limit_mono s.next_offset n a);
  same_vfs = refl;
  same_pool = refl;
}

fail-Allocates : (s : RamFs) (n : ℕ) → IsList s → Allocates s (bumped s n) 0 n
unfolding bumped free_owners
fail-Allocates s n l = record {
  listed = record { sized = l.sized; counted = l.counted; started = omega (arith, l.started) };
  owners_le = λ ne a. absurd (ne refl);
  owners_kept = λ a. omega (arith, limit_mono s.next_offset n a);
  same_vfs = refl;
  same_pool = refl;
}

-- The bytes handed out were free or had never been handed out.
pub alloc_data_lem :
    (s : RamFs) (n : ℕ)
    → IsList s
    → 0 < n
    → s.next_offset + n < u64_mod
    → Allocates s (alloc_data s n).1 (alloc_data s n).0 n
unfolding alloc_data bumped
alloc_data_lem s n l pos small =
    rw (ne→== n 0 (λ e. omega arith)) (elim (Option-cases (find_fit s n s.free_count 0)) [
      | inr (i, e) ↦
          let (a, b, c) = find_fit_lem s n s.free_count 0 i e in
          rw (e, alloc_data) (fit-Allocates s n i l (omega arith) c)
      | inl e ↦
          let sum : add64 s.next_offset n ≡ s.next_offset + n = omega arith in
          elim (Bool-cases (ltb data_pool_size (s.next_offset + n))) [
            | inl t ↦ rw (e, sum, t) (fail-Allocates s n l)
            | inr f ↦ rw (e, sum, f) (bump-Allocates s n l (ltb→ge _ _ f))
          ]
    ])
