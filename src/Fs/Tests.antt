-- ===== src/Fs/Tests.antt =====
-- The file system's theorems at concrete trees.
use barry_os.Fs.File.Handles.{Opens, read_again, open_file-Opens, reads}
use barry_os.Fs.File.{FileHandle, read, open_file, no_handle, strip_slash}
use barry_os.Common.{
  write_at, ℕ, [], ◌≡◌, List, ◌≢◌, arith, some, inr, ◌∷◌, ◌==◌, refl, ◌+◌, true, Bool, ◌<◌,
  replicate,
}
use barry_os.Common.Words.{u64_mod}
use barry_os.Fs.Vnodes.{
  get_parent, same_bytes, alloc_slot, write_vnode, child_count, get, alloc_id, Vfs, Vnode, file,
  dir, empty, root_id, get_type, max_file_size, set_name_raw, has_name, update, vnode_at, exists,
  find_slot, first_slot, get_size, get_data_offset, get_capacity, set_data, set_data_full,
}
use barry_os.Fs.Vnodes.Access.{node}
use barry_os.Fs.Vnodes.Names.{IsNamed}
use barry_os.Fs.Vfs.{
  child_matches, init, lookup_in, place_node, link_child, push_child, new_vnode, lookup,
  create_node, reset, root_vnode,
}
use barry_os.Fs.Vfs.Lookup.{IsForest}
use barry_os.Fs.Vfs.Create.{lookup-create, lookup-create_ne}
use barry_os.Fs.Vfs.Forest.{create_node-IsForest}
use barry_os.Fs.Vfs.Reset.{reset-IsForest}
use barry_os.Fs.Paths
use barry_os.Fs.Paths.{
  slash, resolve, resolve_from, resolve_parts, split_slash, split_parent, starts_with_slash,
}
use barry_os.Fs.Paths.Split
use barry_os.Common.{◌&&◌, ==→eq, take, length, min}
use barry_os.Common.Bits.{and_left, and_right}
use barry_os.Fs.Paths.Split.{named, split_parent-plain, split_parent-append, split_parent-root}
use barry_os.Fs.RamFs.{
  RamFs, new, write_file, read_file, add_free, bytes_free, find_fit, take_block, alloc_data,
  free_data, poke, write_bytes, release, set_full, place, store,
}
use barry_os.Fs.RamFs.Owners.{IsOwned}
use barry_os.Fs.RamFs.Start.{IsBare, new-IsOwned}
use barry_os.Fs.RamFs.Files.{write_file-IsOwned}
use barry_os.Fs.RamFs.Contents.{read_file-write_file_ne}
use barry_os.Fs.RamFs.Fits.{read_file-write_file}

abbrev user : ℕ × ℕ
user = (0, 0)

abbrev blank : Vfs
blank = record { vnodes = []; next_id = 0 }

-- The root alone.
abbrev rooted : Vfs
rooted = reset blank

rooted-IsForest : IsForest rooted
rooted-IsForest = (reset-IsForest blank).0

rooted-root : node rooted root_id ≡ some (root_vnode empty)
rooted-root = (reset-IsForest blank).1 root_id

-- `etc`
abbrev etc : List ℕ
etc = b'e' ∷ b't' ∷ b'c' ∷ []

abbrev with_etc : ℕ × Vfs
with_etc = create_node user rooted root_id etc dir

etc_id : with_etc.0 ≡ 2
unfolding create_node lookup find_slot first_slot reset init alloc_slot write_vnode set_name_raw
    lookup_in vnode_at child_count get place_node alloc_id
etc_id = refl

etc_made : with_etc.0 ≢ 0
etc_made e = omega (arith, etc_id, e)

rooted_next : rooted.next_id ≡ 2
unfolding reset init alloc_slot first_slot write_vnode
rooted_next = refl

ids_left : rooted.next_id + 1 < u64_mod
ids_left = omega (arith, rooted_next)

lookup-create_example : lookup with_etc.1 root_id etc ≡ with_etc.0
lookup-create_example =
    lookup-create user rooted root_id etc dir rooted-IsForest ids_left (root_vnode empty)
      rooted-root etc_made

lookup-create_ne_example : lookup with_etc.1 root_id [] ≡ lookup rooted root_id []
lookup-create_ne_example =
    lookup-create_ne user rooted root_id etc dir rooted-IsForest ids_left (root_vnode empty)
      rooted-root root_id [] etc_made (inr (λ e. cc)) (λ e. omega (arith, etc_id, e))

create_node-IsForest_example : IsForest with_etc.1
create_node-IsForest_example =
    create_node-IsForest user rooted root_id etc dir rooted-IsForest ids_left (root_vnode empty)
      rooted-root

-- No file of a table has bytes, as a test.
all_bare : List Vnode → Bool
all_bare [] = true
all_bare (v ∷ vs) = v.size == 0 && v.data_cap == 0 && all_bare vs

all_bare_sound : (vs : List Vnode) → all_bare vs ≡ true → IsBare vs
unfolding all_bare
all_bare_sound [] h = tt
all_bare_sound (v ∷ vs) h =
    let a = and_left (v.size == 0 && v.data_cap == 0) (all_bare vs) h in
    let b = and_right (v.size == 0 && v.data_cap == 0) (all_bare vs) h in
    (
      (
        ==→eq _ _ (and_left (v.size == 0) (v.data_cap == 0) a),
        ==→eq _ _ (and_right (v.size == 0) (v.data_cap == 0) a),
      ),
      all_bare_sound vs b,
    )

-- A file of that name in the root.
abbrev with_file : ℕ × Vfs
with_file = create_node user rooted root_id etc file

abbrev disk : RamFs
disk = new with_file.1

bare : all_bare with_file.1.vnodes ≡ true
unfolding all_bare create_node lookup find_slot first_slot reset init alloc_slot write_vnode
    set_name_raw lookup_in vnode_at child_count get place_node alloc_id link_child update push_child
    new_vnode
bare = refl

disk-IsOwned : IsOwned disk
disk-IsOwned =
    new-IsOwned with_file.1
      (create_node-IsForest user rooted root_id etc file rooted-IsForest ids_left (root_vnode empty)
        rooted-root).table
      (all_bare_sound with_file.1.vnodes bare)

abbrev text : List ℕ
text = b'h' ∷ b'i' ∷ []

write_file-IsOwned_example : IsOwned (write_file disk 2 text).1
write_file-IsOwned_example = write_file-IsOwned disk 2 text disk-IsOwned (omega arith)

read_file-write_file_ne_example : read_file (write_file disk 2 text).1 1 10 ≡ read_file disk 1 10
read_file-write_file_ne_example =
    read_file-write_file_ne disk 2 1 10 text disk-IsOwned (omega arith) (omega arith)

file_there : exists disk.vfs 2 ≡ true
unfolding exists create_node lookup find_slot first_slot reset init alloc_slot write_vnode
    set_name_raw lookup_in vnode_at child_count get place_node alloc_id link_child update push_child
    new_vnode
file_there = refl

read_file-write_file_example :
    ((write_file disk 2 text).0 ≡ min (length text) max_file_size)
    × (read_file (write_file disk 2 text).1 2 10
        ≡ take (min (min (length text) max_file_size) 10) text)
read_file-write_file_example =
    read_file-write_file disk 2 10 text disk-IsOwned file_there (omega arith)

-- Paths in the tree with the directory.
abbrev tree : Vfs
tree = with_etc.1

etc-IsPlain : Split.IsPlain etc
etc-IsPlain = ((λ e. omega (arith, e)), ((λ e. omega (arith, e)), ((λ e. omega (arith, e)), tt)))

root_is_dir : get_type tree root_id ≡ some dir
unfolding get_type create_node lookup find_slot first_slot reset init alloc_slot write_vnode
    set_name_raw lookup_in vnode_at child_count get place_node alloc_id link_child update push_child
    new_vnode root_vnode
root_is_dir = refl

etc_is_dir : get_type tree 2 ≡ some dir
unfolding get_type create_node lookup find_slot first_slot reset init alloc_slot write_vnode
    set_name_raw lookup_in vnode_at child_count get place_node alloc_id link_child update push_child
    new_vnode root_vnode
etc_is_dir = refl

-- From inside `etc`, `/etc` is taken for `etc`.
split_parent-root_example : split_parent tree 2 (slash ∷ etc) ≡ some (2, named etc, length etc)
split_parent-root_example =
    split_parent-root tree 2 etc (λ e. cc) (omega arith) etc-IsPlain etc_is_dir

etc_resolves : resolve_from tree root_id etc ≡ 2
unfolding resolve_from resolve_parts split_slash Paths.enter Paths.eq_bytes Paths.starts_with_slash
    get_parent create_node lookup find_slot first_slot reset init alloc_slot write_vnode
    set_name_raw lookup_in vnode_at child_count get place_node alloc_id link_child update push_child
    new_vnode root_vnode child_matches has_name same_bytes write_at
etc_resolves = refl

empty-IsNamed : IsNamed empty
empty-IsNamed = record { buffer = refl; short = omega arith }

-- The table of handles at boot, and a path with a slash before it.
abbrev handles : List FileHandle
handles = replicate 16 no_handle

open_file-Opens_example : Opens disk handles (slash ∷ etc) (open_file disk handles (slash ∷ etc))
open_file-Opens_example = open_file-Opens disk handles (slash ∷ etc)

-- The file that is made is named `etc` in the root.
etc_named : lookup (write_file disk 2 text).1.vfs root_id (strip_slash (slash ∷ etc)) ≡ 2
unfolding lookup lookup_in strip_slash starts_with_slash create_node find_slot first_slot reset init
    alloc_slot write_vnode set_name_raw vnode_at child_count get place_node alloc_id link_child
    update push_child new_vnode child_matches has_name same_bytes add_free bytes_free find_fit
    take_block alloc_data free_data poke write_bytes release set_full place store write_file exists
    get_size get_data_offset get_capacity set_data set_data_full write_at
etc_named = refl

-- A read of one byte, then one of two.
read_again_example :
    let s' = (write_file disk 2 text).1 in
    let (fd, hs') = open_file s' handles (slash ∷ etc) in
    (read s' (reads s' hs' fd (1 ∷ [])) fd 2).0 ≡ take (min (min 2 max_file_size) 2) text
read_again_example =
    read_again disk handles (slash ∷ etc) text (1 ∷ []) 2 0 2 disk-IsOwned file_there (omega arith)
      etc_named refl (omega arith) refl
