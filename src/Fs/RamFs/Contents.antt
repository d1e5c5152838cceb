-- ===== src/Fs/RamFs/Contents.antt =====
-- What `read_file` gives after `write_file`: the bytes written, and for every other file what it gave.
use barry_os.Common.Words.{u64_mod}
use barry_os.Fs.RamFs.Blocks.{release_lem, holds_in, holds}
use barry_os.Fs.RamFs.Alloc.{limit_le}
use barry_os.Fs.RamFs.Memory.{read_bytes_same, write_bytes_outside}
use barry_os.Fs.RamFs.Owners.{
  IsOwned, vnode_holds, file_owners_two, booked, slot_lem, set_data_full_lem, length-write_vnode,
  vnode_at-write_self, vnode_at-write_ne,
}
use barry_os.Fs.Vnodes.{set_data_full, get_size, get_data_offset, get, Vnode, find_slot, vnode_at}
use barry_os.Fs.Vnodes.Access.{node, node-update, get_lem}
use barry_os.Common.{
  dec_le, min, ne→==, ℕ, ◌≢◌, ◌≡◌, ◌<◌, some, refl, ◌∙◌, length, ◌+◌, ◌⊎◌, arith, ◌≤◌, none, List,
  take, Option-cases, sym, inl, ap, length-take, subst, inr, dec_lt, dec_le,
}
use barry_os.Fs.RamFs.{
  RamFs, Vfs, read_file, set_full, release, write_bytes, store, get_capacity, write_file,
}
use barry_os.Fs.RamFs.Place.{Books, exhausted, books}
use barry_os.Fs.RamFs.Files.{Writes, nowhere, nothing, something, len_of, write_file_lem, emptied}

-- What the fields of a file are read from.
get_same {ℓ} :
    {A : Type ℓ} (v w : Vfs) (j : ℕ) (f : Vnode → A) → node v j ≡ node w j → get v j f ≡ get w j f
get_same v w j f e = rw (get_lem v j f, get_lem w j f, e) refl

node-set_data_full :
    (v : Vfs) (id off size capacity j : ℕ)
    → id ≢ j
    → node (set_data_full v id off size capacity) j ≡ node v j
unfolding set_data_full
node-set_data_full v id off size capacity j ne =
    let f : Vnode → Vnode = λ x. record x { data_offset = off; size = size; data_cap = capacity } in
    node-update v id f j (λ x. refl) ∙ rw (ne→== id j ne) refl

size_same : (v w : Vfs) (j : ℕ) → node v j ≡ node w j → get_size v j ≡ get_size w j
unfolding get_size
size_same v w j e = rw (get_same v w j (λ x. x.size) e) refl

offset_same : (v w : Vfs) (j : ℕ) → node v j ≡ node w j → get_data_offset v j ≡ get_data_offset w j
unfolding get_data_offset
offset_same v w j e = rw (get_same v w j (λ x. x.data_offset) e) refl

-- A file whose record and bytes stay reads as before.
read_file_same :
    (s r : RamFs) (j room : ℕ)
    → node r.vfs j ≡ node s.vfs j
    → ((i : ℕ)
        → i < get_size s.vfs j
        → r.pool (get_data_offset s.vfs j + i) ≡ s.pool (get_data_offset s.vfs j + i))
    → read_file r j room ≡ read_file s j room
unfolding read_file
read_file_same s r j room e h =
    rw
      (
        size_same r.vfs s.vfs j e,
        offset_same r.vfs s.vfs j e,
        read_bytes_same r.pool s.pool (get_data_offset s.vfs j) (min (get_size s.vfs j) room)
            (λ i lt. h i (omega arith)),
      )
      refl

-- The bytes of two vnodes are apart.
vnodes_apart :
    (s : RamFs) (k m a : ℕ)
    → IsOwned s
    → k < length s.vfs.vnodes
    → m < length s.vfs.vnodes
    → k ≢ m
    → vnode_holds a (vnode_at s.vfs k) ≡ 1
    → vnode_holds a (vnode_at s.vfs m) ≡ 0
vnodes_apart s k m a o lk lm ne one =
    omega (arith, o.once a, file_owners_two s.vfs k m a lk lm ne, limit_le s.next_offset a)

-- After the booking, the place booked and the bytes in use of another file are apart.
other_file :
    (s r : RamFs) (id j k m off len i : ℕ)
    → Books s r id off len
    → find_slot s.vfs id ≡ some k
    → find_slot s.vfs j ≡ some m
    → id ≢ j
    → i < (vnode_at s.vfs m).size
    → ((vnode_at s.vfs m).data_offset + i < off) ⊎ (off + len ≤ (vnode_at s.vfs m).data_offset + i)
other_file s r id j k m off len i b e f ne lt =
    let at = vnode_at s.vfs m in
    let a = at.data_offset + i in
    let new = booked s.vfs k off len b.reserved in
    let (lk, sk, nk) = slot_lem s.vfs id k e in
    let (lm, sm, nm) = slot_lem s.vfs j m f in
    let apart : k ≢ m = λ q. ne (sym sk ∙ ap (λ x. (vnode_at s.vfs x).id) q ∙ sm) in
    let w = b.wrote ∙ set_data_full_lem s.vfs id k off len b.reserved e in
    let sized = ap (λ v. length v.vnodes) w ∙ length-write_vnode s.vfs k new in
    let at_k : vnode_at r.vfs k ≡ new =
      ap (λ v. vnode_at v k) w ∙ vnode_at-write_self s.vfs k new lk in
    let at_m : vnode_at r.vfs m ≡ at =
      ap (λ v. vnode_at v m) w ∙ vnode_at-write_ne s.vfs k m new apart in
    let within = subst (λ x. x.size ≤ x.data_cap) at_m (b.owned.fits m) in
    let mine =
      ap (vnode_holds a) at_m ∙ holds_in at.data_offset at.data_cap a (omega arith) (omega arith) in
    let free =
      vnodes_apart r m k a b.owned (omega (arith, sized)) (omega (arith, sized))
        (λ q. apart (sym q)) mine in
    let none_new : holds off b.reserved a ≡ 0 = sym (ap (vnode_holds a) at_k) ∙ free in
    elim (dec_lt a off) [
      | yes low ↦ inl low
      | no n ↦ elim (dec_le (off + len) a) [
        | yes high ↦ inr high
        | no n' ↦ absurd (
            omega (
              arith,
              b.enough,
              none_new,
              holds_in off b.reserved a (omega arith) (omega (arith, b.enough)),
            ))
      ]
    ]

-- A file that is not there reads as empty.
no_file : (v : Vfs) (j : ℕ) → find_slot v j ≡ none → get_size v j ≡ 0
unfolding get_size get
no_file v j e = rw (e, get) refl

pub fields_of :
    (v : Vfs) (j m : ℕ)
    → find_slot v j ≡ some m
    → (get_size v j ≡ (vnode_at v m).size) × (get_data_offset v j ≡ (vnode_at v m).data_offset)
unfolding get_size get_data_offset get
fields_of v j m e = (rw (e, get) refl, rw (e, get) refl)

poured_apart :
    (s r : RamFs) (id j k off i : ℕ) (bs : List ℕ)
    → Books s r id off (length bs)
    → find_slot s.vfs id ≡ some k
    → id ≢ j
    → i < get_size s.vfs j
    → write_bytes r.pool off bs (get_data_offset s.vfs j + i) ≡ s.pool (get_data_offset s.vfs j + i)
poured_apart s r id j k off i bs b e ne lt = elim (Option-cases (find_slot s.vfs j)) [
  | inl f ↦ absurd (omega (arith, no_file s.vfs j f))
  | inr (m, f) ↦
      let (p, q) = fields_of s.vfs j m f in
      write_bytes_outside r.pool off (get_data_offset s.vfs j + i) bs
        (rw (q) (other_file s r id j k m off (length bs) i b e f ne (omega (arith, p))))
      ∙ ap (λ pool. pool (get_data_offset s.vfs j + i)) b.same_pool
]

release-pool : (s : RamFs) (off size : ℕ) → (release s off size).pool ≡ s.pool
release-pool s off size = (release_lem s off size).same_pool

pub length-bytes : (bytes : List ℕ) → length (take (len_of bytes) bytes) ≡ len_of bytes
length-bytes bytes = omega (arith, length-take (len_of bytes) bytes)

Writes-other :
    (s : RamFs) (id j room : ℕ) (bytes : List ℕ) (r : ℕ × RamFs)
    → id ≢ j
    → Writes s id bytes r
    → read_file r.1 j room ≡ read_file s j room
unfolding set_full store
Writes-other s id j room bytes r ne (nowhere e) = refl
Writes-other s id j room bytes r ne (nothing k e) =
    let old = release_lem s (get_data_offset s.vfs id) (get_capacity s.vfs id) in
    read_file_same s (emptied s id) j room
      (node-set_data_full _ id 0 0 0 j ne ∙ ap (λ v. node v j) old.same_vfs)
      (λ i lt. ap (λ p. p (get_data_offset s.vfs j + i)) old.same_pool)
Writes-other s id j room bytes r ne (something k pos e q (exhausted s' o' v p)) =
    read_file_same s s' j room (ap (λ w. node w j) v)
      (λ i lt. ap (λ p. p (get_data_offset s.vfs j + i)) p)
Writes-other s id j room bytes r ne (something k pos e q (books s' off b)) =
    read_file_same s _ j room
      (ap (λ w. node w j) b.wrote ∙ node-set_data_full s.vfs id off _ b.reserved j ne)
      (λ i lt.
        poured_apart s s' id j k off i (take (len_of bytes) bytes)
          (subst (Books s s' id off) (sym (length-bytes bytes)) b) e ne lt)

-- When every byte of the pool has at most one owner and the bump pointer does not wrap around, a
-- write to one file, whether or not it succeeds, leaves what every other file reads as it was.
pub read_file-write_file_ne :
    (s : RamFs) (id j room : ℕ) (bytes : List ℕ)
    → IsOwned s
    → s.next_offset + length bytes < u64_mod
    → id ≢ j
    → read_file (write_file s id bytes).1 j room ≡ read_file s j room
read_file-write_file_ne s id j room bytes o small ne =
    Writes-other s id j room bytes (write_file s id bytes) ne (write_file_lem s id bytes o small)
