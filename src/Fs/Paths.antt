-- ===== src/Fs/Paths.antt =====
-- kernel/src/fs/vfs.rs, paths: how a text is cut into components, and the vnode that it leads to.
pub mod Resolve
pub mod Split
use barry_os.Common.{
  ℕ, List, ◌∷◌, [], Option, Bool, if◌then◌else◌, suc, length, take, true, false, some, ◌==◌, none,
  ◌||◌, ◌&&◌, ◌+◌, ltb, ◌++◌, zero, ◌-◌, not, write_at, replicate, reverse,
}
use barry_os.Fs.Vnodes.{Vfs, max_name, root_id, dir, get_parent, get_type, get_name}
use barry_os.Fs.Vfs.{lookup, is_dir}

-- `==` on byte strings.
unfoldable pub eq_bytes : List ℕ → List ℕ → Bool
eq_bytes [] [] = true
eq_bytes (a ∷ as_) (b ∷ bs) = a == b && eq_bytes as_ bs
eq_bytes _ _ = false

abbrev pub slash : ℕ
slash = b'/'

abbrev pub dot : List ℕ
dot = b'.' ∷ []

abbrev pub dot_dot : List ℕ
dot_dot = b'.' ∷ b'.' ∷ []

-- A byte in front of the first part.
abbrev pub cons_first : ℕ → List (List ℕ) → List (List ℕ)
cons_first c [] = (c ∷ []) ∷ []
cons_first c (p ∷ ps) = (c ∷ p) ∷ ps

-- `path.split('/')`
unfoldable pub split_slash : List ℕ → List (List ℕ)
split_slash [] = [] ∷ []
split_slash (c ∷ cs) =
    let rest = split_slash cs in if c == slash then [] ∷ rest else cons_first c rest

-- One part that is neither empty nor `.`: `..` goes up, and stays at a vnode with no parent.
unfoldable pub enter : Vfs → ℕ → List ℕ → ℕ
enter s cur part =
    let p = get_parent s cur in
    if eq_bytes part dot_dot then (if p == 0 then cur else p) else lookup s cur part

-- The loop over the parts.
unfoldable pub resolve_parts : Vfs → ℕ → List (List ℕ) → ℕ
resolve_parts s cur [] = cur
resolve_parts s cur (part ∷ rest) =
    let stay = resolve_parts s cur rest in
    let next = enter s cur part in
    let onward = resolve_parts s next rest in
    if length part == 0 || eq_bytes part dot then stay else if next == 0 then 0 else onward

unfoldable pub resolve : Vfs → List ℕ → ℕ
resolve s path = resolve_parts s root_id (split_slash path)

unfoldable pub starts_with_slash : List ℕ → Bool
starts_with_slash [] = false
starts_with_slash (c ∷ cs) = c == slash

unfoldable pub resolve_from : Vfs → ℕ → List ℕ → ℕ
resolve_from s cwd path =
    resolve_parts s (if starts_with_slash path then root_id else cwd) (split_slash path)

-- `path.trim_end_matches('/')`
unfoldable pub trim_end : List ℕ → List ℕ
trim_end [] = []
trim_end (c ∷ cs) =
    let rest = trim_end cs in if c == slash && length rest == 0 then [] else c ∷ rest

-- What stands before and after the last slash.
unfoldable pub rsplit : List ℕ → Option (List ℕ × List ℕ)
rsplit [] = none
rsplit (c ∷ cs) = elim (rsplit cs) [
  | some (before, after) ↦ some (c ∷ before, after)
  | none ↦ if c == slash then some ([], cs) else none
]

abbrev pub dir_and_name : List ℕ → Option (List ℕ × List ℕ) → List ℕ × List ℕ
dir_and_name whole none = ([], whole)
dir_and_name whole (some (before, after)) = (before, after)

-- The parent, the name in its buffer, and the name's length.
unfoldable pub split_parent : Vfs → ℕ → List ℕ → Option (ℕ × List ℕ × ℕ)
split_parent s cwd path =
    let trimmed = trim_end path in
    let (dir_part, name) = dir_and_name trimmed (rsplit trimmed) in
    let parent = if length dir_part == 0 then cwd else resolve_from s cwd dir_part in
    if length trimmed == 0
    then none
    else if length name == 0 || ltb max_name (length name)
    then none
    else if not (length dir_part == 0) && parent == 0
    then none
    else if not (is_dir (get_type s parent))
    then none
    else some (parent, write_at (replicate (max_name + 1) 0) 0 name, length name)

-- The walk up to the root, at most `fuel` vnodes, the starting one first.
unfoldable pub chain_of : Vfs → ℕ → ℕ → List ℕ
chain_of s zero cur = []
chain_of s (suc fuel) cur =
    let above = chain_of s fuel (get_parent s cur) in
    if cur == 0 || cur == root_id then [] else cur ∷ above

-- The names of the ids, a slash before each, into `room` bytes.
unfoldable pub emit : Vfs → List ℕ → ℕ → List ℕ
emit s [] room = []
emit s (id ∷ rest) zero = []
emit s (id ∷ rest) (suc room) =
    let name = take room (get_name s id (max_name + 1)) in
    slash ∷ (name ++ emit s rest (room - length name))

abbrev pub max_depth : ℕ
max_depth = 16

unfoldable pub path_of : Vfs → ℕ → ℕ → List ℕ
path_of s id room = elim (chain_of s max_depth id) [
  | [] ↦ take room (slash ∷ [])
  | c ∷ cs ↦ emit s (reverse (c ∷ cs)) room
]
