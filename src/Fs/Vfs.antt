-- ===== src/Fs/Vfs.antt =====
-- kernel/src/fs/vfs.rs, the tree: directories as arrays of child ids. The log is left out. The ids
-- that `perm::current_ids` returns, the user's and the group's, are an argument of what creates.
pub mod Lookup
pub mod Create
pub mod Forest
pub mod Reset
use barry_os.Common.{
  ℕ, List, take, replicate, Option, ◌∷◌, Bool, ◌-◌, if◌then◌else◌, [], min, none, suc, false, ◌+◌,
  length, some, ◌==◌, ltb, set, ◌&&◌, true, get_or, ◌||◌, zero, not, leb,
}
use barry_os.Fs.Vnodes.{
  Vnode, Vfs, VnodeType, file, dir, symlink, empty, max_name, max_children, max_vnodes, root_id,
  alloc_id, alloc_slot, find_slot, vnode_at, write_vnode, get, update, get_type, child_count,
  set_name_raw, has_name,
}

abbrev pub mode_file : ℕ
mode_file = 0o644

abbrev pub mode_dir : ℕ
mode_dir = 0o755

-- The entries of a directory's array that are in use.
abbrev pub children : Vnode → List ℕ
children v = take v.child_count v.child_ids

-- Does child `cid` carry this name?
unfoldable pub child_matches : Vfs → List ℕ → ℕ → Bool
child_matches s name cid = elim (find_slot s cid) [
  | none ↦ false
  | some slot ↦ has_name (vnode_at s slot) name
]

-- The loop of `lookup` over the directory's children.
unfoldable pub lookup_in : Vfs → List ℕ → List ℕ → ℕ
lookup_in s name [] = 0
lookup_in s name (cid ∷ rest) = if child_matches s name cid then cid else lookup_in s name rest

unfoldable pub lookup : Vfs → ℕ → List ℕ → ℕ
lookup s parent_id name = elim (find_slot s parent_id) [
  | none ↦ 0
  | some pslot ↦ lookup_in s name (children (vnode_at s pslot))
]

unfoldable pub push_child : ℕ → Vnode → Vnode
push_child child_id v =
    if ltb v.child_count max_children
    then record v {
      child_ids = set v.child_ids v.child_count child_id;
      child_count = v.child_count + 1;
    }
    else v

unfoldable pub link_child : Vfs → ℕ → ℕ → Vfs
link_child s parent_id child_id = (update s parent_id (push_child child_id)).1

abbrev pub mode_of : VnodeType → ℕ
mode_of dir = mode_dir
mode_of _ = mode_file

unfoldable pub new_vnode : ℕ × ℕ → ℕ → VnodeType → ℕ → List ℕ → Vnode
new_vnode ids id vtype parent_id name =
    let blank : Vnode = record empty { id = id; vtype = vtype } in
    record (set_name_raw blank name) {
      parent_id = parent_id;
      uid = ids.0;
      gid = ids.1;
      mode = mode_of vtype;
    }

-- The rest of `create_node` once its checks have passed.
unfoldable pub place_node : ℕ × ℕ → Vfs → ℕ → List ℕ → VnodeType → ℕ × Vfs
place_node ids s parent_id name vtype =
    let (id, s') = alloc_id s in
    elim (alloc_slot s') [
      | none ↦ (0, s')
      | some slot ↦ (
        id,
        link_child (write_vnode s' slot (new_vnode ids id vtype parent_id name)) parent_id id,
      )
    ]

-- The new vnode's id, 0 on failure, and the new state.
unfoldable pub create_node : ℕ × ℕ → Vfs → ℕ → List ℕ → VnodeType → ℕ × Vfs
create_node ids s parent_id name vtype =
    if length name == 0 || ltb max_name (length name)
    then (0, s)
    else if not (lookup s parent_id name == 0)
    then (0, s)
    else if leb max_children (child_count s parent_id)
    then (0, s)
    else place_node ids s parent_id name vtype

unfoldable pub create_file : ℕ × ℕ → Vfs → ℕ → List ℕ → ℕ × Vfs
create_file ids s parent_id name = create_node ids s parent_id name file

unfoldable pub create_dir : ℕ × ℕ → Vfs → ℕ → List ℕ → ℕ × Vfs
create_dir ids s parent_id name = create_node ids s parent_id name dir

-- `for j in i..n - 1 { ids[j] = ids[j + 1] }`, from `j` with `k` rounds left.
unfoldable pub shift_down : ℕ → ℕ → List ℕ → List ℕ
shift_down zero j ids = ids
shift_down (suc k) j ids = shift_down k (j + 1) (set ids j (get_or ids (j + 1) 0))

-- The first position of an id, from position `i` on with `k` to search.
unfoldable pub position : ℕ → List ℕ → ℕ → ℕ → Option ℕ
position cid ids zero i = none
position cid ids (suc k) i =
    let rest = position cid ids k (i + 1) in if get_or ids i 0 == cid then some i else rest

drop_child : ℕ → Vnode → Vnode
drop_child i v = record v {
  child_ids = shift_down (v.child_count - 1 - i) i v.child_ids;
  child_count = v.child_count - 1;
}

unfoldable pub unlink_child : Vfs → ℕ → ℕ → Bool × Vfs
unfolding drop_child
unlink_child s parent_id child_id = elim (find_slot s parent_id) [
  | none ↦ (false, s)
  | some pslot ↦
      let parent = vnode_at s pslot in
      elim (position child_id parent.child_ids parent.child_count 0) [
        | none ↦ (false, s)
        | some i ↦ (true, write_vnode s pslot (drop_child i parent))
      ]
]

abbrev pub is_dir : Option VnodeType → Bool
is_dir (some dir) = true
is_dir _ = false

unfoldable pub clear_vnode : Vfs → ℕ → Vfs
clear_vnode s id = elim (find_slot s id) [ none ↦ s | some slot ↦ write_vnode s slot empty ]

unfoldable pub unlink : Vfs → ℕ → List ℕ → Bool × Vfs
unlink s parent_id name =
    let id = lookup s parent_id name in
    let (removed, s') = unlink_child s parent_id id in
    if id == 0
    then (false, s)
    else if is_dir (get_type s id) && ltb 0 (child_count s id)
    then (false, s)
    else if not removed
    then (false, s')
    else (true, clear_vnode s' id)

unfoldable pub rename : Vfs → ℕ → List ℕ → List ℕ → Bool × Vfs
rename s parent_id old name =
    let id = lookup s parent_id old in
    let other = lookup s parent_id name in
    if length name == 0 || ltb max_name (length name)
    then (false, s)
    else if id == 0
    then (false, s)
    else if not (other == 0) && not (other == id)
    then (false, s)
    else update s id (λ v. set_name_raw v name)

-- One entry of a listing.
pub record DirEntry : Type 0 where
  pub id : ℕ
  pub vtype : VnodeType
  pub size : ℕ
  pub name : List ℕ
  pub name_len : ℕ

abbrev pub entry_of : Vnode → DirEntry
entry_of v = record {
  id = v.id;
  vtype = v.vtype;
  size = v.size;
  name = take (min v.name_len max_name) v.name;
  name_len = min v.name_len max_name;
}

-- The loop of `read_dir` into a buffer with room for `room` more entries.
unfoldable pub list_children : Vfs → List ℕ → ℕ → List DirEntry
list_children s [] room = []
list_children s (cid ∷ rest) zero = []
list_children s (cid ∷ rest) (suc room) =
    let fewer = list_children s rest room in
    let skipped = list_children s rest (suc room) in
    elim (find_slot s cid) [ none ↦ skipped | some slot ↦ entry_of (vnode_at s slot) ∷ fewer ]

unfoldable pub read_dir : Vfs → ℕ → ℕ → List DirEntry
read_dir s id room = elim (find_slot s id) [
  | none ↦ []
  | some slot ↦ list_children s (children (vnode_at s slot)) room
]

unfoldable pub root_vnode : Vnode → Vnode
root_vnode v = record (set_name_raw (record v { id = root_id; vtype = dir }) (b'/' ∷ [])) {
  parent_id = 0;
  uid = 0;
  gid = 0;
  mode = mode_dir;
}

unfoldable pub init : Vfs → Vfs
unfolding root_vnode
init s = elim (alloc_slot s) [
  | none ↦ s
  | some slot ↦ write_vnode s slot (root_vnode (vnode_at s slot))
]

-- Every slot is written with a blank vnode, and the root is made again.
unfoldable pub reset : Vfs → Vfs
reset s = init (record { vnodes = replicate max_vnodes empty; next_id = 2 })
