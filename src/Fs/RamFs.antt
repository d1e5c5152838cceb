-- ===== src/Fs/RamFs.antt =====
-- kernel/src/fs/ramfs.rs: file contents, in one pool with a bump pointer and a list of freed
-- blocks. The pool is the memory from its base on, as a function from offsets to bytes; the log is
-- left out.
pub mod Blocks
pub mod Alloc
pub mod Owners
pub mod Start
pub mod Place
pub mod Memory
pub mod Files
pub mod Contents
pub mod Fits
use barry_os.Common.Words.{sub64, add64}
use barry_os.Common.{
  ℕ, Option, replicate, get_or, none, List, if◌then◌else◌, suc, [], ltb, min, ◌==◌, ◌∷◌, some, Bool,
  ◌+◌, set, leb, ◌||◌, length, zero, false, ◌-◌, not, true, take,
}
use barry_os.Fs.Vfs.{unlink as remove, create_file, lookup}
use barry_os.Fs.Vnodes.{
  Vfs, set_data_full, get_data_offset, get_size, get_capacity, max_file_size, set_data, exists,
}

abbrev pub data_pool_size : ℕ
data_pool_size = 262144

abbrev pub free_max : ℕ
free_max = 32

pub record FreeBlock : Type 0 where
  pub off : ℕ
  pub size : ℕ

abbrev pub no_block : FreeBlock
no_block = record { off = 0; size = 0 }

-- The statics of this file, with the vnode table that it works on.
pub record RamFs : Type 0 where
  pub vfs : Vfs
  pub pool : ℕ → ℕ
  pub next_offset : ℕ
  pub free : List FreeBlock
  pub free_count : ℕ

abbrev pub new : Vfs → RamFs
new v = record {
  vfs = v;
  pool = λ a. 0;
  next_offset = 1;
  free = replicate free_max no_block;
  free_count = 0;
}

abbrev pub block : RamFs → ℕ → FreeBlock
block s i = get_or s.free i no_block

-- The sizes of the listed blocks, from number `i` with `k` left, on top of a total.
unfoldable pub add_free : RamFs → ℕ → ℕ → ℕ → ℕ
add_free s zero i total = total
add_free s (suc k) i total = add_free s k (i + 1) (add64 total (block s i).size)

unfoldable pub bytes_free : RamFs → ℕ
bytes_free s = add_free s s.free_count 0 (sub64 data_pool_size s.next_offset)

-- The first listed block with room for `n` bytes.
unfoldable pub find_fit : RamFs → ℕ → ℕ → ℕ → Option ℕ
find_fit s n zero i = none
find_fit s n (suc k) i =
    let rest = find_fit s n k (i + 1) in if leb n (block s i).size then some i else rest

-- `n` bytes off the front of a block, or the whole block, the last one put in its place.
unfoldable pub take_block : RamFs → ℕ → ℕ → RamFs
take_block s n i =
    let b = block s i in
    if ltb n b.size
    then record s { free = set s.free i (record { off = b.off + n; size = b.size - n }) }
    else record s {
      free = set s.free i (block s (s.free_count - 1));
      free_count = s.free_count - 1;
    }

-- The offset, 0 on failure, and the new state.
unfoldable pub alloc_data : RamFs → ℕ → ℕ × RamFs
alloc_data s n = if n == 0 then (0, s) else elim (find_fit s n s.free_count 0) [
  | some i ↦ ((block s i).off, take_block s n i)
  | none ↦
      let off = s.next_offset in
      let s' = record s { next_offset = add64 s.next_offset n } in
      if ltb data_pool_size (add64 off n) then (0, s') else (off, s')
]

unfoldable pub free_data : RamFs → ℕ → ℕ → RamFs
free_data s off size =
    if off == 0 || size == 0 then s else if leb free_max s.free_count then s else record s {
      free = set s.free s.free_count (record { off = off; size = size });
      free_count = s.free_count + 1;
    }

-- One byte of memory written.
unfoldable pub poke : (ℕ → ℕ) → ℕ → ℕ → ℕ → ℕ
poke p a b x = if x == a then b else p x

unfoldable pub write_bytes : (ℕ → ℕ) → ℕ → List ℕ → ℕ → ℕ
write_bytes p a [] = p
write_bytes p a (b ∷ bs) = write_bytes (poke p a b) (a + 1) bs

unfoldable pub read_bytes : (ℕ → ℕ) → ℕ → ℕ → List ℕ
read_bytes p a zero = []
read_bytes p a (suc k) = p a ∷ read_bytes p (a + 1) k

-- The release of a vnode's old bytes, when it has any.
unfoldable pub release : RamFs → ℕ → ℕ → RamFs
release s off capacity = if ltb 0 capacity then free_data s off capacity else s

-- A vnode's offset, size and capacity, in the state.
unfoldable pub set_full : RamFs → ℕ → ℕ → ℕ → ℕ → RamFs
set_full s id off size capacity = record s { vfs = set_data_full s.vfs id off size capacity }

-- Where the new contents go, none when the pool is exhausted, and the state with the place booked.
unfoldable pub place : RamFs → ℕ → ℕ → Option ℕ × RamFs
place s id len =
    let old_off = get_data_offset s.vfs id in
    let old_cap = get_capacity s.vfs id in
    let (off, s') = alloc_data s len in
    if leb len old_cap
    then (some old_off, record s { vfs = set_data s.vfs id old_off len })
    else if off == 0
    then (none, s')
    else (some off, set_full (release s' old_off old_cap) id off len len)

unfoldable pub store : Option ℕ × RamFs → List ℕ → ℕ × RamFs
store (none, s) bytes = (0, s)
store (some off, s) bytes = (length bytes, record s { pool = write_bytes s.pool off bytes })

-- How many bytes were written, and the new state.
unfoldable pub write_file : RamFs → ℕ → List ℕ → ℕ × RamFs
write_file s id bytes =
    let len = min (length bytes) max_file_size in
    if not (exists s.vfs id)
    then (0, s)
    else if len == 0
    then (0, set_full (release s (get_data_offset s.vfs id) (get_capacity s.vfs id)) id 0 0 0)
    else store (place s id len) (take len bytes)

-- The bytes copied into a buffer of `room` bytes.
unfoldable pub read_file : RamFs → ℕ → ℕ → List ℕ
read_file s id room =
    let size = get_size s.vfs id in
    let offset = get_data_offset s.vfs id in
    if size == 0 || offset == 0 then [] else read_bytes s.pool offset (min size room)

unfoldable pub read_file_at : RamFs → ℕ → ℕ → ℕ → List ℕ
read_file_at s id offset room =
    let size = get_size s.vfs id in
    let base = get_data_offset s.vfs id in
    if base == 0 || leb size offset
    then []
    else read_bytes s.pool (add64 base offset) (min (size - offset) room)

unfoldable pub create_file_in : ℕ × ℕ → RamFs → ℕ → List ℕ → ℕ × RamFs
create_file_in ids s parent name =
    let (id, v) = create_file ids s.vfs parent name in (id, record s { vfs = v })

unfoldable pub create_file_with_content_in : ℕ × ℕ → RamFs → ℕ → List ℕ → List ℕ → ℕ × RamFs
create_file_with_content_in ids s parent name content =
    let (id, s') = create_file_in ids s parent name in
    if id == 0 then (0, s') else (id, (write_file s' id content).1)

unfoldable pub unlink : RamFs → ℕ → List ℕ → Bool × RamFs
unlink s parent name =
    let id = lookup s.vfs parent name in
    let capacity = get_capacity s.vfs id in
    let off = get_data_offset s.vfs id in
    let (removed, v) = remove s.vfs parent name in
    let s' = record s { vfs = v } in
    if id == 0
    then (false, s)
    else if not removed
    then (false, s')
    else (true, release s' off capacity)
