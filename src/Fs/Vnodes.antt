-- ===== src/Fs/Vnodes.antt =====
-- kernel/src/fs/vfs.rs, the vnode table: its slots, the accessors by id, and the names. A name is
-- the list of its bytes.
pub mod Table
pub mod Access
pub mod Names
use barry_os.Common.Words.{add64}
use barry_os.Common.{
  ℕ, List, replicate, Option, if◌then◌else◌, min, none, ◌+◌, take, set, Bool, some, get_or, true,
  ◌∷◌, length, false, [], ◌==◌, write_at, suc, ◌&&◌, zero,
}

pub data VnodeType : Type 0 where
  file dir symlink : VnodeType

abbrev pub max_name : ℕ
max_name = 31

abbrev pub max_file_size : ℕ
max_file_size = 65536

abbrev pub max_children : ℕ
max_children = 16

abbrev pub max_vnodes : ℕ
max_vnodes = 64

abbrev pub root_id : ℕ
root_id = 1

pub record Vnode : Type 0 where
  pub id : ℕ
  pub vtype : VnodeType
  pub name : List ℕ
  pub name_len : ℕ
  pub size : ℕ
  pub parent_id : ℕ
  pub child_ids : List ℕ
  pub child_count : ℕ
  pub data_offset : ℕ
  pub data_cap : ℕ
  pub uid : ℕ
  pub gid : ℕ
  pub mode : ℕ

abbrev pub empty : Vnode
empty = record {
  id = 0;
  vtype = file;
  name = replicate (max_name + 1) 0;
  name_len = 0;
  size = 0;
  parent_id = 0;
  child_ids = replicate max_children 0;
  child_count = 0;
  data_offset = 0;
  data_cap = 0;
  uid = 0;
  gid = 0;
  mode = 0;
}

-- The static table and the id counter.
pub record Vfs : Type 0 where
  pub vnodes : List Vnode
  pub next_id : ℕ

unfoldable pub alloc_id : Vfs → ℕ × Vfs
alloc_id s = (s.next_id, record s { next_id = add64 s.next_id 1 })

-- The first slot from number `i` on whose vnode has this id.
unfoldable pub first_slot : ℕ → List Vnode → ℕ → Option ℕ
first_slot id [] i = none
first_slot id (v ∷ vs) i = if v.id == id then some i else first_slot id vs (i + 1)

unfoldable pub alloc_slot : Vfs → Option ℕ
alloc_slot s = first_slot 0 s.vnodes 0

unfoldable pub find_slot : Vfs → ℕ → Option ℕ
find_slot s id = if id == 0 then none else first_slot id s.vnodes 0

unfoldable pub exists : Vfs → ℕ → Bool
exists s id = elim (find_slot s id) [ none ↦ false | some slot ↦ true ]

unfoldable pub vnode_at : Vfs → ℕ → Vnode
vnode_at s slot = get_or s.vnodes slot empty

unfoldable pub write_vnode : Vfs → ℕ → Vnode → Vfs
write_vnode s slot v = record s { vnodes = set s.vnodes slot v }

-- `find_slot(id).map(|s| f(vnode_at(s)))`
unfoldable pub get {ℓ} : {A : Type ℓ} → Vfs → ℕ → (Vnode → A) → Option A
get s id f = elim (find_slot s id) [ none ↦ none | some slot ↦ some (f (vnode_at s slot)) ]

abbrev pub unwrap_or {ℓ} : {A : Type ℓ} → Option A → A → A
unwrap_or none d = d
unwrap_or (some a) d = a

-- Whether the vnode was there, and the state with its fields written.
unfoldable pub update : Vfs → ℕ → (Vnode → Vnode) → Bool × Vfs
update s id f = elim (find_slot s id) [
  | none ↦ (false, s)
  | some slot ↦ (true, write_vnode s slot (f (vnode_at s slot)))
]

pub record Perm : Type 0 where
  pub uid : ℕ
  pub gid : ℕ
  pub mode : ℕ

unfoldable pub get_perm : Vfs → ℕ → Option Perm
get_perm s id = get s id (λ v. record { uid = v.uid; gid = v.gid; mode = v.mode })

unfoldable pub set_mode : Vfs → ℕ → ℕ → Bool × Vfs
set_mode s id mode = update s id (λ v. record v { mode = mode })

unfoldable pub set_owner : Vfs → ℕ → ℕ → ℕ → Bool × Vfs
set_owner s id uid gid = update s id (λ v. record v { uid = uid; gid = gid })

unfoldable pub get_type : Vfs → ℕ → Option VnodeType
get_type s id = get s id (λ v. v.vtype)

unfoldable pub get_size : Vfs → ℕ → ℕ
get_size s id = unwrap_or (get s id (λ v. v.size)) 0

unfoldable pub get_data_offset : Vfs → ℕ → ℕ
get_data_offset s id = unwrap_or (get s id (λ v. v.data_offset)) 0

unfoldable pub get_capacity : Vfs → ℕ → ℕ
get_capacity s id = unwrap_or (get s id (λ v. v.data_cap)) 0

unfoldable pub get_parent : Vfs → ℕ → ℕ
get_parent s id = unwrap_or (get s id (λ v. v.parent_id)) 0

unfoldable pub child_count : Vfs → ℕ → ℕ
child_count s id = unwrap_or (get s id (λ v. v.child_count)) 0

unfoldable pub set_data : Vfs → ℕ → ℕ → ℕ → Vfs
set_data s id offset size = (update s id (λ v. record v { data_offset = offset; size = size })).1

unfoldable pub set_data_full : Vfs → ℕ → ℕ → ℕ → ℕ → Vfs
set_data_full s id offset size cap =
    (update s id (λ v. record v { data_offset = offset; size = size; data_cap = cap })).1

-- The bytes written, then a terminator; what stands behind it stays.
unfoldable pub set_name_raw : Vnode → List ℕ → Vnode
set_name_raw v b =
    let n = min (length b) max_name in
    record v { name = set (write_at v.name 0 (take n b)) n 0; name_len = n }

-- `for j in 0..cnlen`, from byte `j` with `k` to compare.
unfoldable pub same_bytes : ℕ → ℕ → List ℕ → List ℕ → Bool
same_bytes zero j xs ys = true
same_bytes (suc k) j xs ys = get_or xs j 0 == get_or ys j 0 && same_bytes k (j + 1) xs ys

unfoldable pub has_name : Vnode → List ℕ → Bool
has_name v b = v.name_len == length b && same_bytes v.name_len 0 v.name b

-- The bytes that `get_name` copies into a buffer of `room` bytes.
unfoldable pub get_name : Vfs → ℕ → ℕ → List ℕ
get_name s id room = unwrap_or (get s id (λ v. take (min v.name_len room) v.name)) []
