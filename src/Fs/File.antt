-- ===== src/Fs/File.antt =====
-- kernel/src/fs/file.rs: the table of open files, over the ram file system. A descriptor is the bit
-- pattern of an `i64`, which the source casts to an index. The smoke test is left out.
pub mod Handles
use barry_os.Fs.Vfs.{lookup}
use barry_os.Fs.Paths.{starts_with_slash}
use barry_os.Fs.Vnodes.{root_id}
use barry_os.Common.Words.{u64_mod, add64}
use barry_os.Fs.RamFs.{RamFs, read_file}
use barry_os.Common.{
  ℕ, List, false, Bool, if◌then◌else◌, Option, get_or, ltb, none, ◌-◌, some, leb, set, drop, suc,
  true, ◌+◌, [], ◌==◌, zero, length,
}

abbrev pub max_handles : ℕ
max_handles = 16

pub record FileHandle : Type 0 where
  pub vnode_id : ℕ
  pub offset : ℕ
  pub in_use : Bool

abbrev pub no_handle : FileHandle
no_handle = record { vnode_id = 0; offset = 0; in_use = false }

-- -1
abbrev pub failure : ℕ
failure = u64_mod - 1

-- The loop over the table from handle `i` on: the first one that is free.
unfoldable pub free_handle : ℕ → ℕ → List FileHandle → Option ℕ
free_handle zero i hs = none
free_handle (suc n) i hs =
    let rest = free_handle n (i + 1) hs in if (get_or hs i no_handle).in_use then rest else some i

-- The path without the slash before it.
unfoldable pub strip_slash : List ℕ → List ℕ
strip_slash path = if starts_with_slash path then drop 1 path else path

unfoldable pub open_file : RamFs → List FileHandle → List ℕ → ℕ × List FileHandle
unfolding free_handle strip_slash
open_file s hs path =
    let vnode_id = lookup s.vfs root_id (strip_slash path) in
    let opened : ℕ × List FileHandle = elim (free_handle max_handles 0 hs) [
      | none ↦ (failure, hs)
      | some i ↦ (i, set hs i (record { vnode_id = vnode_id; offset = 0; in_use = true }))
    ] in
    if vnode_id == 0 then (failure, hs) else opened

-- What is read into a buffer of `room` bytes, and the table.
unfoldable pub read : RamFs → List FileHandle → ℕ → ℕ → List ℕ × List FileHandle
read s hs fd room =
    let h = get_or hs fd no_handle in
    let bytes = read_file s h.vnode_id room in
    if leb max_handles fd
    then ([], hs)
    else if h.in_use
    then (bytes, set hs fd (record h { offset = add64 h.offset (length bytes) }))
    else ([], hs)

unfoldable pub close : List FileHandle → ℕ → List FileHandle
close hs fd =
    if ltb fd max_handles
    then set hs fd (record (get_or hs fd no_handle) { in_use = false; offset = 0 })
    else hs
