-- ===== src/Fs/RamFs/Place.antt =====
-- What `place` books for a file's new contents: bytes that belonged to that file or to nobody.
use barry_os.Common.Words.{u64_mod}
use barry_os.Fs.Vnodes.Access.{IsTable}
use barry_os.Fs.RamFs.Alloc.{limit_in, limit, alloc_data_lem}
use barry_os.Fs.RamFs.Alloc.{Allocates}
use barry_os.Common.{
  eq→==, ◌<◌, ◌≡◌, some, length, ◌≤◌, none, ◌≢◌, arith, refl, ◌∙◌, ap, ap₂, subst, ◌+◌, sym,
  Bool-cases, leb, inl, leb→le, inr, ℕ_discrete, eq→==, ne→==,
}
use barry_os.Fs.RamFs.Owners.{
  IsOwned, file_owners_one, set_data_lem, set_full-IsOwned, slot_lem, file_owners,
}
use barry_os.Fs.Vnodes.{
  set_data_full, set_data, get_data_offset, get_capacity, find_slot, vnode_at, get,
}
use barry_os.Fs.RamFs.{
  RamFs, ℕ, Vfs, Option, get_data_offset, set_full, get_capacity, release, place, alloc_data,
}
use barry_os.Fs.RamFs.Blocks.{holds, holds_in, release_lem}

-- What `place` does for the vnode in slot `k`: nothing is free, or the bytes at `off` are booked.
pub record Books (s s' : RamFs) (id off len : ℕ) : Type 0 where
  pub owned : IsOwned s'
  pub reserved : ℕ
  pub wrote : s'.vfs ≡ set_data_full s.vfs id off len reserved
  pub enough : len ≤ reserved
  pub placed : off ≢ 0
  pub same_pool : s'.pool ≡ s.pool

pub data Places (s : RamFs) (id len : ℕ) : Option ℕ × RamFs → Type 0 where
  exhausted :
      (s' : RamFs) → IsOwned s' → s'.vfs ≡ s.vfs → s'.pool ≡ s.pool → Places s id len (none, s')
  books : (s' : RamFs) (off : ℕ) → Books s s' id off len → Places s id len (some off, s')

pub field_lem :
    (v : Vfs) (id k : ℕ)
    → find_slot v id ≡ some k
    → (get_data_offset v id ≡ (vnode_at v k).data_offset)
      × (get_capacity v id ≡ (vnode_at v k).data_cap)
unfolding get_data_offset get_capacity get vnode_at
field_lem v id k e = (rw (e, get_data_offset, get) refl, rw (e, get_capacity, get) refl)

-- Bytes that somebody owns do not start at 0.
owned-placed :
    (s : RamFs) (k : ℕ)
    → IsOwned s
    → k < length s.vfs.vnodes
    → 0 < (vnode_at s.vfs k).data_cap
    → (vnode_at s.vfs k).data_offset ≢ 0
owned-placed s k o lt pos e =
    let a = (vnode_at s.vfs k).data_offset in
    let one = file_owners_one s.vfs k a lt in
    let it = holds_in a (vnode_at s.vfs k).data_cap a (omega arith) (omega arith) in
    let (p, q, r) = limit_in s.next_offset a (omega (arith, o.once a, one, it)) in omega arith

reuse-IsOwned :
    (s : RamFs) (id k off size capacity : ℕ)
    → IsOwned s
    → find_slot s.vfs id ≡ some k
    → size ≤ capacity
    → off ≡ (vnode_at s.vfs k).data_offset
    → capacity ≡ (vnode_at s.vfs k).data_cap
    → IsOwned (set_full s id off size capacity)
reuse-IsOwned s id k off size capacity o e le p q =
    set_full-IsOwned s s id k off size capacity o o.listed refl e le
      (λ a. omega (arith, o.once a, ap₂ (λ x y. holds x y a) p q))

reuse-Books :
    (s : RamFs) (id k len : ℕ)
    → IsOwned s
    → find_slot s.vfs id ≡ some k
    → 0 < len
    → len ≤ (vnode_at s.vfs k).data_cap
    → Books s
        (record s { vfs = set_data s.vfs id (vnode_at s.vfs k).data_offset len })
        id
        (vnode_at s.vfs k).data_offset
        len
unfolding set_full
reuse-Books s id k len o e pos le =
    let at = vnode_at s.vfs k in
    let full = set_data_lem s.vfs id k at.data_offset len e in
    let (lt, same, ne) = slot_lem s.vfs id k e in
    record {
      owned = rw (full) (reuse-IsOwned s id k at.data_offset len at.data_cap o e le refl refl);
      reserved = at.data_cap;
      wrote = full;
      enough = le;
      placed = owned-placed s k o lt (omega arith);
      same_pool = refl;
    }

moved-Books :
    (s s' : RamFs) (id k off len : ℕ)
    → IsOwned s
    → find_slot s.vfs id ≡ some k
    → Allocates s s' off len
    → off ≢ 0
    → Books s
        (set_full
          (release s' (vnode_at s.vfs k).data_offset (vnode_at s.vfs k).data_cap)
          id
          off
          len
          len)
        id
        off
        len
unfolding set_full
moved-Books s s' id k off len o e al ne =
    let at = vnode_at s.vfs k in
    let r = release_lem s' at.data_offset at.data_cap in
    record {
      owned =
          set_full-IsOwned s (release s' at.data_offset at.data_cap) id k off len len o
            (r.listed al.listed) (r.same_vfs ∙ al.same_vfs) e (omega arith)
            (λ a. omega (
              arith,
              r.owners_le a al.listed,
              al.owners_le ne a,
              o.once a,
              ap (λ m. limit m a) r.same_next,
            ));
      reserved = len;
      wrote = ap (λ v. set_data_full v id off len len) (r.same_vfs ∙ al.same_vfs);
      enough = omega arith;
      placed = ne;
      same_pool = r.same_pool ∙ al.same_pool;
    }

-- The pool stays with its owners when nothing could be booked.
lost-IsOwned : (s s' : RamFs) (off len : ℕ) → IsOwned s → Allocates s s' off len → IsOwned s'
lost-IsOwned s s' off len o al = record {
  table = subst IsTable (sym al.same_vfs) o.table;
  listed = al.listed;
  once = λ a. omega (arith, o.once a, al.owners_kept a, ap (λ v. file_owners v a) al.same_vfs);
  fits =
      λ k. subst (λ v. (vnode_at v k).size ≤ (vnode_at v k).data_cap) (sym al.same_vfs) (o.fits k);
}

pub place_lem :
    (s : RamFs) (id k len : ℕ)
    → IsOwned s
    → find_slot s.vfs id ≡ some k
    → 0 < len
    → s.next_offset + len < u64_mod
    → Places s id len (place s id len)
unfolding place
place_lem s id k len o e pos small =
    let (f, g) = field_lem s.vfs id k e in
    let al = alloc_data_lem s len o.listed pos small in
    rw (f, g)
      (elim (Bool-cases (leb len (vnode_at s.vfs k).data_cap)) [
        | inl t ↦ rw (t) (books _ _ (reuse-Books s id k len o e pos (leb→le _ _ t)))
        | inr u ↦ elim (ℕ_discrete (alloc_data s len).0 0) [
          | yes z ↦
              rw (u, eq→== _ _ z)
                (exhausted _ (lost-IsOwned s _ _ len o al) al.same_vfs al.same_pool)
          | no nz ↦ rw (u, ne→== _ _ nz) (books _ _ (moved-Books s _ id k _ len o e al nz))
        ]
      ])
