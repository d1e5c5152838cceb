-- ===== src/Fs/File/Handles.antt =====
-- What opening a file changes in the table, and what is read through a handle.
use barry_os.Fs.RamFs.Fits.{read_file-write_file}
use barry_os.Fs.RamFs.Owners.{IsOwned}
use barry_os.Fs.Vnodes.{exists, find_slot, max_file_size}
use barry_os.Fs.Vfs.{lookup}
use barry_os.Common.{
  List, ℕ, ◌<◌, ◌≤◌, Option, arith, Bool-cases, get_or, length, suc, ◌+◌, some, ◌≡◌, false, true,
  ◌⊎◌, ◌==◌, inl, ℕ_discrete, none, subst, ==→eq, inr, get_or-set_self, Option-cases, ◌≢◌, zero,
  ==→ne, set, ◌∷◌, clash, length-set, [], sym, ◌∙◌, gt→leb, take, ap, min, refl,
}
use barry_os.Fs.File.{
  read, open_file, free_handle, FileHandle, no_handle, root_id, strip_slash, max_handles, failure,
  read_file, add64,
}
use barry_os.Fs.RamFs.{RamFs, data_pool_size, write_file}

-- The handles from `i` on and below `k` are in use.
abbrev BusyFrom : List FileHandle → ℕ → ℕ → Type 0
BusyFrom hs i k = (j : ℕ) → i ≤ j → j < k → (get_or hs j no_handle).in_use ≡ true

-- What the search for a free handle finds.
abbrev Found : List FileHandle → ℕ → ℕ → Option ℕ → Type 0
Found hs i n none = BusyFrom hs i (i + n)
Found hs i n (some k) =
    (i ≤ k) × (k < i + n) × ((get_or hs k no_handle).in_use ≡ false) × BusyFrom hs i k

BusyFrom-cons :
    (hs : List FileHandle) (i k : ℕ)
    → (get_or hs i no_handle).in_use ≡ true
    → BusyFrom hs (i + 1) k
    → BusyFrom hs i k
BusyFrom-cons hs i k busy rest j le lt = elim (ℕ_discrete i j) [
  | yes e ↦ subst (λ x. (get_or hs x no_handle).in_use ≡ true) e busy
  | no ne ↦ rest j (omega (arith, ne)) lt
]

free_handle-Found : (n i : ℕ) (hs : List FileHandle) → Found hs i n (free_handle n i hs)
unfolding free_handle
free_handle-Found zero i hs = λ j le lt. absurd (omega arith)
free_handle-Found (suc n) i hs = elim (Bool-cases (get_or hs i no_handle).in_use) [
  | inl busy ↦ rw busy (later (free_handle n (i + 1) hs) busy (free_handle-Found n (i + 1) hs))
  | inr free ↦ rw free (omega arith, omega arith, free, λ j le lt. absurd (omega arith))
]
  where
    later :
        (o : Option ℕ)
        → (get_or hs i no_handle).in_use ≡ true
        → Found hs (i + 1) n o
        → Found hs i (suc n) o
    later none busy rest = BusyFrom-cons hs i (i + suc n) busy (λ j le lt. rest j le (omega arith))
    later (some k) busy rest = (omega arith, omega arith, rest.2, BusyFrom-cons hs i k busy rest.3)

-- The two ways in which opening a file can go.
pub data Opens (s : RamFs) (hs : List FileHandle) (path : List ℕ)
    : ℕ × List FileHandle → Type 0 where
  refused :
      (lookup s.vfs root_id (strip_slash path) ≡ 0)
        ⊎ ((j : ℕ) → j < max_handles → (get_or hs j no_handle).in_use ≡ true)
      → Opens s hs path (failure, hs)
  opened :
      (fd : ℕ)
      → fd < max_handles
      → lookup s.vfs root_id (strip_slash path) ≢ 0
      → (get_or hs fd no_handle).in_use ≡ false
      → ((j : ℕ) → j < fd → (get_or hs j no_handle).in_use ≡ true)
      → Opens s hs path (
        fd,
        set hs fd (record {
          vnode_id = lookup s.vfs root_id (strip_slash path);
          offset = 0;
          in_use = true;
        }),
      )

-- A path is opened in the lowest handle that is free, which alone is changed; it is refused, and the
-- table left as it was, exactly if the root has no such entry or every handle is in use.
pub open_file-Opens :
    (s : RamFs) (hs : List FileHandle) (path : List ℕ) → Opens s hs path (open_file s hs path)
unfolding open_file
open_file-Opens s hs path = elim (Bool-cases (lookup s.vfs root_id (strip_slash path) == 0)) [
  | inl missing ↦ rw missing (refused (inl (==→eq _ _ missing)))
  | inr there ↦ elim (Option-cases (free_handle max_handles 0 hs)) [
    | inl full ↦
        rw (there, full)
          (refused (
            inr (λ j lt.
              subst (Found hs 0 max_handles) full (free_handle-Found max_handles 0 hs) j
                (omega arith) (omega arith))))
    | inr (fd, e) ↦
        let found = subst (Found hs 0 max_handles) e (free_handle-Found max_handles 0 hs) in
        rw (there, e)
          (opened fd (omega (arith, found.1)) (==→ne _ _ there) found.2
            (λ j lt. found.3 j (omega arith) lt))
  ]
]

-- No file has the id 0.
exists_zero : (s : RamFs) (id : ℕ) → exists s.vfs id ≡ true → id ≢ 0
unfolding exists find_slot
exists_zero s id there z = clash (sym (ap (exists s.vfs) z) ∙ there) refl

-- The file with this id is open in handle `fd`.
record IsOpen (hs : List FileHandle) (fd id : ℕ) : Type 0 where
  inside : fd < max_handles
  sized : length hs ≡ max_handles
  used : (get_or hs fd no_handle).in_use ≡ true
  of_file : (get_or hs fd no_handle).vnode_id ≡ id

-- The table after reads through a handle, into buffers of the given sizes.
abbrev pub reads : RamFs → List FileHandle → ℕ → List ℕ → List FileHandle
reads s hs fd [] = hs
reads s hs fd (room ∷ rooms) = reads s (read s hs fd room).1 fd rooms

read-IsOpen :
    (s : RamFs) (hs : List FileHandle) (fd room id : ℕ)
    → IsOpen hs fd id
    → ((read s hs fd room).0 ≡ read_file s id room) × IsOpen (read s hs fd room).1 fd id
unfolding read
read-IsOpen s hs fd room id v =
    let h = get_or hs fd no_handle in
    let moved = record h {
      offset = add64 h.offset (length (read_file s h.vnode_id room));
      in_use = true;
    } in
    let there = get_or-set_self hs fd moved no_handle (omega (arith, v.inside, v.sized)) in
    rw (gt→leb max_handles fd v.inside, v.used)
      (
        ap (λ k. read_file s k room) v.of_file,
        record {
          inside = v.inside;
          sized = length-set hs fd moved ∙ v.sized;
          used = ap (λ (q : FileHandle). q.in_use) there;
          of_file = ap (λ (q : FileHandle). q.vnode_id) there ∙ v.of_file;
        },
      )

reads-IsOpen :
    (s : RamFs) (hs : List FileHandle) (fd id : ℕ) (rooms : List ℕ)
    → IsOpen hs fd id
    → IsOpen (reads s hs fd rooms) fd id
reads-IsOpen s hs fd id [] v = v
reads-IsOpen s hs fd id (room ∷ rooms) v =
    reads-IsOpen s (read s hs fd room).1 fd id rooms (read-IsOpen s hs fd room id v).1

-- What opening a file that is there gives, while a handle is free.
opened-IsOpen :
    (s : RamFs) (hs : List FileHandle) (path : List ℕ) (free : ℕ) (r : ℕ × List FileHandle)
    → lookup s.vfs root_id (strip_slash path) ≢ 0
    → length hs ≡ max_handles
    → free < max_handles
    → (get_or hs free no_handle).in_use ≡ false
    → Opens s hs path r
    → IsOpen r.1 r.0 (lookup s.vfs root_id (strip_slash path))
opened-IsOpen s hs path free r there sized lt unused (refused (inl missing)) =
    absurd (there missing)
opened-IsOpen s hs path free r there sized lt unused (refused (inr all_used)) =
    absurd (clash (all_used free lt) unused)
opened-IsOpen s hs path free r there sized lt unused (opened fd inside ok is_free before) =
    let id = lookup s.vfs root_id (strip_slash path) in
    let h : FileHandle = record { vnode_id = id; offset = 0; in_use = true } in
    let at = get_or-set_self hs fd h no_handle (omega (arith, sized)) in
    record {
      inside = inside;
      sized = length-set hs fd h ∙ sized;
      used = ap (λ (q : FileHandle). q.in_use) at;
      of_file = ap (λ (q : FileHandle). q.vnode_id) at;
    }

-- Bytes are written to an existing file, when every byte of the pool has at most one owner and the bump
-- pointer leaves room; the path then is the file's name in the root, and it is opened while a handle of
-- the whole table is free. However often the file has been read through that handle, the next read
-- gives the bytes from the first one on, as many as a file can have and as its buffer takes.
pub read_again :
    (s : RamFs) (hs : List FileHandle) (path bytes rooms : List ℕ) (id free room : ℕ)
    → IsOwned s
    → exists s.vfs id ≡ true
    → s.next_offset + length bytes ≤ data_pool_size
    → lookup (write_file s id bytes).1.vfs root_id (strip_slash path) ≡ id
    → length hs ≡ max_handles
    → free < max_handles
    → (get_or hs free no_handle).in_use ≡ false
    → let s' = (write_file s id bytes).1 in
      let (fd, hs') = open_file s' hs path in
      (read s' (reads s' hs' fd rooms) fd room).0
      ≡ take (min (min (length bytes) max_file_size) room) bytes
read_again s hs path bytes rooms id free room owned there fits named sized lt unused =
    let s' = (write_file s id bytes).1 in
    let r = open_file s' hs path in
    let is_open : IsOpen r.1 r.0 id = subst (IsOpen r.1 r.0) named (
      opened-IsOpen s' hs path free r (λ z. exists_zero s id there (sym named ∙ z)) sized lt unused
        (open_file-Opens s' hs path)) in
    (read-IsOpen s' (reads s' r.1 r.0 rooms) r.0 room id
      (reads-IsOpen s' r.1 r.0 id rooms is_open)).0
    ∙ (read_file-write_file s id room bytes owned there fits).1
