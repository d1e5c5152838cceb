-- ===== src/Fs/RamFs/Files.antt =====
-- `write_file`, branch by branch, and that every byte of the pool keeps one owner.
use barry_os.Fs.Vnodes.Access.{find_cases}
use barry_os.Fs.RamFs.Alloc.{limit}
use barry_os.Common.Words.{u64_mod}
use barry_os.Fs.RamFs.Place.{field_lem, Places, exhausted, books, place_lem}
use barry_os.Common.{
  min, ne→==, eq→==, ◌≡◌, some, List, ◌+◌, length, ◌<◌, arith, Option, inr, ap, inl, min,
  ℕ_discrete, take, none, true, false, refl,
}
use barry_os.Fs.RamFs.Owners.{IsOwned, set_full-IsOwned}
use barry_os.Fs.RamFs.Blocks.{free_owners, release_lem, holds_out}
use barry_os.Fs.Vnodes.{exists, get_data_offset, find_slot, vnode_at}
use barry_os.Fs.RamFs.{
  RamFs, write_file, ℕ, exists, store, set_full, release, get_capacity, max_file_size, place, Vfs,
}

poured-IsOwned : (s : RamFs) (q : ℕ → ℕ) → IsOwned s → IsOwned (record s { pool = q })
unfolding free_owners
poured-IsOwned s q o = record {
  table = o.table;
  listed = record {
    sized = o.listed.sized;
    counted = o.listed.counted;
    started = o.listed.started;
  };
  once = o.once;
  fits = o.fits;
}

-- An emptied file.
emptied-IsOwned :
    (s : RamFs) (id k : ℕ)
    → IsOwned s
    → find_slot s.vfs id ≡ some k
    → IsOwned (set_full (release s (get_data_offset s.vfs id) (get_capacity s.vfs id)) id 0 0 0)
emptied-IsOwned s id k o e =
    let (f, g) = field_lem s.vfs id k e in
    let at = vnode_at s.vfs k in
    let r = release_lem s at.data_offset at.data_cap in
    rw (f, g)
      (set_full-IsOwned s (release s at.data_offset at.data_cap) id k 0 0 0 o (r.listed o.listed)
        r.same_vfs e (omega arith)
        (λ a. omega (
          arith,
          r.owners_le a o.listed,
          o.once a,
          holds_out 0 0 a (inr (omega arith)),
          ap (λ m. limit m a) r.same_next,
        )))

pub exists_none : (v : Vfs) (id : ℕ) → find_slot v id ≡ none → exists v id ≡ false
unfolding exists
exists_none v id e = rw (e, exists) refl

exists_some : (v : Vfs) (id k : ℕ) → find_slot v id ≡ some k → exists v id ≡ true
unfolding exists
exists_some v id k e = rw (e, exists) refl

abbrev pub len_of : List ℕ → ℕ
len_of bytes = min (length bytes) max_file_size

abbrev pub emptied : RamFs → ℕ → RamFs
emptied s id = set_full (release s (get_data_offset s.vfs id) (get_capacity s.vfs id)) id 0 0 0

-- The three branches of `write_file`.
pub data Writes (s : RamFs) (id : ℕ) (bytes : List ℕ) : ℕ × RamFs → Type 0 where
  nowhere : find_slot s.vfs id ≡ none → Writes s id bytes (0, s)
  nothing : (k : ℕ) → find_slot s.vfs id ≡ some k → Writes s id bytes (0, emptied s id)
  something :
      (k : ℕ)
      → 0 < len_of bytes
      → find_slot s.vfs id ≡ some k
      → (r : Option ℕ × RamFs) → Places s id (len_of bytes) r
      → Writes s id bytes (store r (take (len_of bytes) bytes))

pub write_file_lem :
    (s : RamFs) (id : ℕ) (bytes : List ℕ)
    → IsOwned s
    → s.next_offset + length bytes < u64_mod
    → Writes s id bytes (write_file s id bytes)
unfolding write_file
write_file_lem s id bytes o small = elim (find_cases s.vfs id) [
  | inl (e, n) ↦ rw (exists_none s.vfs id e) (nowhere e)
  | inr (k, e, n, ne, finds) ↦ elim (ℕ_discrete (len_of bytes) 0) [
    | yes z ↦ rw (exists_some s.vfs id k e, eq→== (len_of bytes) 0 z) (nothing k e)
    | no nz ↦
        rw (exists_some s.vfs id k e, ne→== (len_of bytes) 0 nz)
          (something k (omega arith) e (place s id (len_of bytes))
            (place_lem s id k (len_of bytes) o e (omega arith) (omega arith)))
  ]
]

Writes-IsOwned :
    (s : RamFs) (id : ℕ) (bytes : List ℕ) (r : ℕ × RamFs)
    → IsOwned s
    → Writes s id bytes r
    → IsOwned r.1
unfolding store
Writes-IsOwned s id bytes r o (nowhere e) = o
Writes-IsOwned s id bytes r o (nothing k e) = emptied-IsOwned s id k o e
Writes-IsOwned s id bytes r o (something k pos e q (exhausted s' o' v p)) = o'
Writes-IsOwned s id bytes r o (something k pos e q (books s' off b)) = poured-IsOwned s' _ b.owned

-- Every byte of the pool has at most one owner after `write_file`, if it had before and the bump
-- pointer does not wrap around.
pub write_file-IsOwned :
    (s : RamFs) (id : ℕ) (bytes : List ℕ)
    → IsOwned s
    → s.next_offset + length bytes < u64_mod
    → IsOwned (write_file s id bytes).1
write_file-IsOwned s id bytes o small =
    Writes-IsOwned s id bytes (write_file s id bytes) o (write_file_lem s id bytes o small)
