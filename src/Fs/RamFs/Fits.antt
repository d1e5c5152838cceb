-- ===== src/Fs/RamFs/Fits.antt =====
-- A write for which the bump pointer leaves room succeeds, and its bytes are read back.
use barry_os.Fs.RamFs.Memory.{read_bytes-write_bytes}
use barry_os.Fs.RamFs.Contents.{length-bytes}
use barry_os.Fs.RamFs.Alloc.{limit_in}
use barry_os.Fs.RamFs.Blocks.{holds_in, free_owners_one, find_fit_lem, release_lem}
use barry_os.Fs.RamFs.Owners.{IsOwned}
use barry_os.Fs.Vnodes.{
  set_data_full, get_size, get_data_offset, exists, find_slot, Vnode, update, vnode_at,
}
use barry_os.Fs.Vnodes.Access.{node, node-update, find_cases, get_lem}
use barry_os.Common.{
  ge→ltb, min, ne→==, eq→==, sym, inl, inr, suc, zero, ℕ, Option, List, ◌≡◌, ◌<◌, some, true,
  length, none-ne-some, ◌+◌, ◌≤◌, ◌≢◌, none, refl, Bool-cases, arith, Option-cases, ℕ_discrete, leb,
  take, ◌∙◌, ge→ltb, [], clash, ap, ◌∷◌,
}
use barry_os.Fs.RamFs.{
  RamFs, alloc_data, write_file, place, store, block, data_pool_size, find_fit, get_capacity, add64,
  set_full, max_file_size, Vfs, read_file, read_bytes,
}
use barry_os.Fs.RamFs.Place.{exhausted, books}
use barry_os.Fs.RamFs.Files.{
  Writes, nowhere, nothing, something, len_of, write_file_lem, exists_none, emptied,
}

-- A listed block with some bytes does not start at 0.
block-placed :
    (s : RamFs) (i : ℕ) → IsOwned s → i < s.free_count → 0 < (block s i).size → (block s i).off ≢ 0
block-placed s i o lt pos e =
    let a = (block s i).off in
    let it = holds_in a (block s i).size a (omega arith) (omega arith) in
    let (p, q, r) =
      limit_in s.next_offset a (omega (arith, o.once a, free_owners_one s i a lt, it)) in
    omega arith

alloc_data_fits :
    (s : RamFs) (n : ℕ)
    → IsOwned s
    → 0 < n
    → s.next_offset + n ≤ data_pool_size
    → (alloc_data s n).0 ≢ 0
unfolding alloc_data
alloc_data_fits s n o pos room =
    rw (ne→== n 0 (λ e. omega arith)) (elim (Option-cases (find_fit s n s.free_count 0)) [
      | inr (i, e) ↦
          let (a, b, c) = find_fit_lem s n s.free_count 0 i e in
          rw (e, alloc_data) (block-placed s i o (omega arith) (omega arith))
      | inl e ↦
          let sum : add64 s.next_offset n ≡ s.next_offset + n = omega arith in
          rw (e, sum, ge→ltb data_pool_size (s.next_offset + n) room)
            (λ z. omega (arith, o.listed.started))
    ])

abbrev Got : Option ℕ × RamFs → Type 0
Got r = (off : ℕ) × (r.0 ≡ some off)

place_fits :
    (s : RamFs) (id len : ℕ)
    → IsOwned s
    → 0 < len
    → s.next_offset + len ≤ data_pool_size
    → Got (place s id len)
unfolding place
place_fits s id len o pos room =
    let al = alloc_data_fits s len o pos room in
    elim (Bool-cases (leb len (get_capacity s.vfs id))) [
      | inl t ↦ rw (t) (get_data_offset s.vfs id, refl)
      | inr u ↦ rw (u, ne→== _ _ al) ((alloc_data s len).0, refl)
    ]

store_count : (r : Option ℕ × RamFs) (bs : List ℕ) → Got r → (store r bs).0 ≡ length bs
unfolding store
store_count (none, s) bs (off, e) = absurd (none-ne-some e)
store_count (some x, s) bs (off, e) = refl

write_file_count :
    (s : RamFs) (id : ℕ) (bytes : List ℕ)
    → IsOwned s
    → exists s.vfs id ≡ true
    → s.next_offset + length bytes ≤ data_pool_size
    → (write_file s id bytes).0 ≡ len_of bytes
unfolding write_file
write_file_count s id bytes o there room = elim (ℕ_discrete (len_of bytes) 0) [
  | yes z ↦ rw (there, eq→== (len_of bytes) 0 z) (sym z)
  | no nz ↦
      rw (there, ne→== (len_of bytes) 0 nz)
        (store_count (place s id (len_of bytes)) (take (len_of bytes) bytes)
            (place_fits s id (len_of bytes) o (omega arith) (omega arith))
          ∙ length-bytes bytes)
]

-- The fields of the vnode after the booking.
booked_fields :
    (v : Vfs) (id k off size capacity : ℕ)
    → find_slot v id ≡ some k
    → (get_size (set_data_full v id off size capacity) id ≡ size)
      × (get_data_offset (set_data_full v id off size capacity) id ≡ off)
unfolding get_size get_data_offset set_data_full
booked_fields v id k off size capacity e =
    let f : Vnode → Vnode = λ x. record x { data_offset = off; size = size; data_cap = capacity } in
    elim (find_cases v id) [
      | inl (e', n) ↦ absurd (none-ne-some (sym e' ∙ e))
      | inr (m, e', n, ne, finds) ↦
          let now : node (update v id f).1 id ≡ some (f (vnode_at v m)) =
            rw (node-update v id f id (λ x. refl), eq→== id id refl, n) refl in
          (
            rw (get_lem (update v id f).1 id (λ x. x.size), now) refl,
            rw (get_lem (update v id f).1 id (λ x. x.data_offset), now) refl,
          )
    ]

read_file_lem :
    (r : RamFs) (id room size off : ℕ)
    → (get_size r.vfs id ≡ size) × (get_data_offset r.vfs id ≡ off)
    → size ≢ 0
    → off ≢ 0
    → read_file r id room ≡ read_bytes r.pool off (min size room)
unfolding read_file
read_file_lem r id room size off (p, q) ns placed =
    rw (p, q, ne→== size 0 ns, ne→== off 0 placed) refl

read_empty : (r : RamFs) (id room : ℕ) → get_size r.vfs id ≡ 0 → read_file r id room ≡ []
unfolding read_file
read_empty r id room e = rw (e) refl

take-take : (k n : ℕ) (bs : List ℕ) → k ≤ n → take k (take n bs) ≡ take k bs
take-take zero n bs h = refl
take-take (suc k) zero bs h = absurd (omega arith)
take-take (suc k) (suc n) [] h = refl
take-take (suc k) (suc n) (b ∷ bs) h = ap (◌∷◌ b) (take-take k n bs (omega arith))

Writes-back :
    (s : RamFs) (id room : ℕ) (bytes : List ℕ) (r : ℕ × RamFs)
    → exists s.vfs id ≡ true
    → r.0 ≡ len_of bytes
    → Writes s id bytes r
    → read_file r.1 id room ≡ take (min (len_of bytes) room) bytes
unfolding store set_full
Writes-back s id room bytes r there count (nowhere e) =
    absurd (clash there (exists_none s.vfs id e))
Writes-back s id room bytes r there count (nothing k e) =
    let old = release_lem s (get_data_offset s.vfs id) (get_capacity s.vfs id) in
    let gone =
      ap (λ v. get_size (set_data_full v id 0 0 0) id) old.same_vfs
      ∙ (booked_fields s.vfs id k 0 0 0 e).0 in
    let short : min (len_of bytes) room ≡ 0 = omega arith in
    read_empty (emptied s id) id room gone ∙ ap (λ n. take n bytes) (sym short)
Writes-back s id room bytes r there count (something k pos e q (exhausted s' o' v p)) =
    absurd (omega arith)
Writes-back s id room bytes r there count (something k pos e q (books s' off b)) =
    let fields = booked_fields s.vfs id k off (len_of bytes) b.reserved e in
    read_file_lem _ id room (len_of bytes) off
      (
        ap (λ v. get_size v id) b.wrote ∙ fields.0,
        ap (λ v. get_data_offset v id) b.wrote ∙ fields.1,
      )
      (λ z. omega arith) b.placed
    ∙ read_bytes-write_bytes s'.pool off (min (len_of bytes) room) (take (len_of bytes) bytes)
        (omega (arith, length-bytes bytes))
    ∙ take-take (min (len_of bytes) room) (len_of bytes) bytes (omega arith)

-- When every byte of the pool has at most one owner, a write to an existing file for which the
-- bump pointer leaves room writes as many of the bytes as a file can have, and a read with a
-- buffer of `room` bytes gives the first `room` of them.
pub read_file-write_file :
    (s : RamFs) (id room : ℕ) (bytes : List ℕ)
    → IsOwned s
    → exists s.vfs id ≡ true
    → s.next_offset + length bytes ≤ data_pool_size
    → ((write_file s id bytes).0 ≡ min (length bytes) max_file_size)
      × (read_file (write_file s id bytes).1 id room
          ≡ take (min (min (length bytes) max_file_size) room) bytes)
read_file-write_file s id room bytes o there fits =
    let count = write_file_count s id bytes o there fits in
    (
      count,
      Writes-back s id room bytes (write_file s id bytes) there count
          (write_file_lem s id bytes o (omega arith)),
    )
