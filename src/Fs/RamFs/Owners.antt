-- ===== src/Fs/RamFs/Owners.antt =====
-- Who owns a byte of the pool: a listed block, a vnode, or nobody; never two of them.
use barry_os.Fs.RamFs.Alloc.{limit}
use barry_os.Fs.Vnodes.Table.{Finds, Finds-id}
use barry_os.Common.Sums.{sum_below, sum_below_one, sum_below_two, sum_below-set}
use barry_os.Common.{
  ◌<◌, length, ◌≢◌, ◌≡◌, ◌≤◌, ◌+◌, dec_lt, length-set, arith, get_or, set, ap, get_or-set_ne, sym,
  ◌∙◌, ◌∷◌, get_or-set_self, some, suc, ℕ_discrete, [], inl, zero, none-ne-some, inr, subst,
  some-eq, refl,
}
use barry_os.Fs.Vnodes.Access.{IsTable, find_cases, update-IsTable}
use barry_os.Fs.Vnodes.{
  set_data, set_data_full, write_vnode, Vnode, vnode_at, empty, find_slot, update,
}
use barry_os.Fs.RamFs.{RamFs, Vfs, ℕ, List, set_data_full, set_full, set_data}
use barry_os.Fs.RamFs.Blocks.{holds, IsList, free_owners}

abbrev pub vnode_holds : ℕ → Vnode → ℕ
vnode_holds a v = holds v.data_offset v.data_cap a

-- How many vnodes have an offset in the bytes reserved for them.
unfoldable pub file_owners : Vfs → ℕ → ℕ
file_owners v a = sum_below (length v.vnodes) (λ k. vnode_holds a (vnode_at v k))

-- The ids are one to one, the list is in bounds, every byte has at most one owner, an owned byte has
-- been handed out, and a file's bytes in use fit in those reserved for it.
pub record IsOwned (s : RamFs) : Type 0 where
  pub table : IsTable s.vfs
  pub listed : IsList s
  pub once : (a : ℕ) → free_owners s a + file_owners s.vfs a ≤ limit s.next_offset a
  pub fits : (k : ℕ) → (vnode_at s.vfs k).size ≤ (vnode_at s.vfs k).data_cap

pub length-write_vnode :
    (v : Vfs) (k : ℕ) (w : Vnode) → length (write_vnode v k w).vnodes ≡ length v.vnodes
unfolding write_vnode
length-write_vnode v k w = length-set v.vnodes k w

-- A write to one slot moves the ownership of that slot alone.
pub file_owners-write :
    (v : Vfs) (k : ℕ) (w : Vnode) (a : ℕ)
    → k < length v.vnodes
    → file_owners (write_vnode v k w) a + vnode_holds a (vnode_at v k)
      ≡ file_owners v a + vnode_holds a w
unfolding file_owners write_vnode vnode_at
file_owners-write v k w a lt = rw (length-set v.vnodes k w) (
    sum_below-set (length v.vnodes) k (λ j. vnode_holds a (get_or v.vnodes j empty))
      (λ j. vnode_holds a (get_or (set v.vnodes k w) j empty)) lt
      (λ j lt' ne. ap (vnode_holds a) (get_or-set_ne v.vnodes k j w empty (λ e. ne (sym e))))
    ∙ ap (λ x. file_owners v a + vnode_holds a x) (get_or-set_self v.vnodes k w empty lt))

pub file_owners_one :
    (v : Vfs) (k a : ℕ) → k < length v.vnodes → vnode_holds a (vnode_at v k) ≤ file_owners v a
unfolding file_owners
file_owners_one v k a lt = sum_below_one (length v.vnodes) k (λ j. vnode_holds a (vnode_at v j)) lt

pub file_owners_two :
    (v : Vfs) (k j a : ℕ)
    → k < length v.vnodes
    → j < length v.vnodes
    → k ≢ j
    → vnode_holds a (vnode_at v k) + vnode_holds a (vnode_at v j) ≤ file_owners v a
unfolding file_owners
file_owners_two v k j a lk lj ne = elim (dec_lt j k) [
  | yes b ↦ sum_below_two (length v.vnodes) k j (λ i. vnode_holds a (vnode_at v i)) lk b
  | no b ↦ omega (
    arith,
    sum_below_two (length v.vnodes) j k (λ i. vnode_holds a (vnode_at v i)) lj (omega arith),
  )
]

-- An entry found stands in the table.
Finds-lt : (id : ℕ) (vs : List Vnode) (k : ℕ) → Finds id vs k → k < length vs
Finds-lt id [] k f = absurd f
Finds-lt id (v ∷ vs) zero f = omega arith
Finds-lt id (v ∷ vs) (suc k) f = omega (arith, Finds-lt id vs k f.1)

pub slot_lem :
    (v : Vfs) (id k : ℕ)
    → find_slot v id ≡ some k
    → (k < length v.vnodes) × ((vnode_at v k).id ≡ id) × (id ≢ 0)
unfolding vnode_at
slot_lem v id k e = elim (find_cases v id) [
  | inl (e', n) ↦ absurd (none-ne-some (sym e' ∙ e))
  | inr (m, e', n, ne, finds) ↦
      let here = subst (Finds id v.vnodes) (some-eq (sym e' ∙ e)) finds in
      (Finds-lt id v.vnodes k here, Finds-id id v.vnodes k here, ne)
]

pub vnode_at-write_self :
    (v : Vfs) (k : ℕ) (w : Vnode) → k < length v.vnodes → vnode_at (write_vnode v k w) k ≡ w
unfolding vnode_at write_vnode
vnode_at-write_self v k w lt = get_or-set_self v.vnodes k w empty lt

pub vnode_at-write_ne :
    (v : Vfs) (k j : ℕ) (w : Vnode) → k ≢ j → vnode_at (write_vnode v k w) j ≡ vnode_at v j
unfolding vnode_at write_vnode
vnode_at-write_ne v k j w ne = get_or-set_ne v.vnodes k j w empty ne

-- A vnode with new bytes.
abbrev pub booked : Vfs → ℕ → ℕ → ℕ → ℕ → Vnode
booked v k off size capacity = record (vnode_at v k) {
  data_offset = off;
  size = size;
  data_cap = capacity;
}

pub set_data_full_lem :
    (v : Vfs) (id k off size capacity : ℕ)
    → find_slot v id ≡ some k
    → set_data_full v id off size capacity ≡ write_vnode v k (booked v k off size capacity)
unfolding set_data_full update
set_data_full_lem v id k off size capacity e = rw (e, set_data_full, update) refl

pub set_data_lem :
    (v : Vfs) (id k off size : ℕ)
    → find_slot v id ≡ some k
    → set_data v id off size ≡ set_data_full v id off size (vnode_at v k).data_cap
unfolding set_data set_data_full update
set_data_lem v id k off size e = rw (e, set_data, set_data_full, update) refl

keeps-IsTable :
    (v : Vfs) (id off size capacity : ℕ)
    → IsTable v
    → IsTable (set_data_full v id off size capacity)
unfolding set_data_full
keeps-IsTable v id off size capacity t =
    update-IsTable v id (λ w. record w { data_offset = off; size = size; data_cap = capacity })
      (λ w. refl) t

-- A vnode's bytes exchanged for others that nobody else owns.
pub set_full-IsOwned :
    (s r : RamFs) (id k off size capacity : ℕ)
    → IsOwned s
    → IsList r
    → r.vfs ≡ s.vfs
    → find_slot s.vfs id ≡ some k
    → size ≤ capacity
    → ((a : ℕ)
        → free_owners r a + file_owners s.vfs a + holds off capacity a
          ≤ limit r.next_offset a + vnode_holds a (vnode_at s.vfs k))
    → IsOwned (set_full r id off size capacity)
unfolding set_full free_owners
set_full-IsOwned s r id k off size capacity o l v e le room =
    let (lt, same, ne) = slot_lem s.vfs id k e in
    let w = set_data_full_lem s.vfs id k off size capacity e in
    rw (v) (record {
      table = keeps-IsTable s.vfs id off size capacity o.table;
      listed = record { sized = l.sized; counted = l.counted; started = l.started };
      once = λ a. rw (w) (
          omega (arith, room a, file_owners-write s.vfs k (booked s.vfs k off size capacity) a lt));
      fits = λ j. rw (w) (elim (ℕ_discrete k j) [
        | yes here ↦
            rw (← here, vnode_at-write_self s.vfs k (booked s.vfs k off size capacity) lt) le
        | no other ↦
            rw (vnode_at-write_ne s.vfs k j (booked s.vfs k off size capacity) other) (o.fits j)
      ]);
    })
