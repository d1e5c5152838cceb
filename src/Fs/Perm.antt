-- ===== src/Fs/Perm.antt =====
-- kernel/src/fs/perm.rs: accounts, the permission check, and the texts of numbers, hashes and modes.
-- The account files and the password hash are left out.
use barry_os.Common.Words.{u32_mod}
use barry_os.Common.{
  ℕ, Bool, Option, List, if◌then◌else◌, false, ◌==◌, ◌∷◌, bit_or, none, leb, take, some, ◌/◌, ◌&&◌,
  [], ltb, true, bit_and, ◌%◌, ◌*◌, ◌+◌, ◌-◌, ◌^◌, not, ◌++◌,
}
pub mod Hex
use Prim.Native.Nat.{zero, suc}
use barry_os.Fs.Vnodes.{Vfs, VnodeType, dir, symlink, get_perm}
use barry_os.Fs.Vnodes

abbrev pub uid_root : ℕ
uid_root = 0

abbrev pub gid_root : ℕ
gid_root = 0

-- The permission bits.
abbrev pub may_read : ℕ
may_read = 4

abbrev pub may_write : ℕ
may_write = 2

abbrev pub may_execute : ℕ
may_execute = 1

abbrev pub max_users : ℕ
max_users = 8

-- An account; a name is the list of its bytes in use.
pub record User : Type 0 where
  pub uid : ℕ
  pub gid : ℕ
  pub name : List ℕ
  pub home : List ℕ
  pub shell : List ℕ

-- The accounts in use, and who owns the shell.
pub record Accounts : Type 0 where
  pub users : List User
  pub current_uid : ℕ

unfoldable pub find_uid : ℕ → List User → Option User
find_uid uid [] = none
find_uid uid (u ∷ us) = if u.uid == uid then some u else find_uid uid us

unfoldable pub user_by_uid : Accounts → ℕ → Option User
user_by_uid a uid = find_uid uid a.users

abbrev pub gid_of : Option User → ℕ
gid_of (some u) = u.gid
gid_of none = gid_root

unfoldable pub current_ids : Accounts → ℕ × ℕ
current_ids a = (a.current_uid, gid_of (user_by_uid a a.current_uid))

unfoldable pub current_gid : Accounts → ℕ
current_gid a = gid_of (user_by_uid a a.current_uid)

unfoldable pub set_current_uid : Accounts → ℕ → Bool × Accounts
set_current_uid a uid = elim (user_by_uid a uid) [
  | none ↦ (false, a)
  | some u ↦ (true, record a { current_uid = uid })
]

unfoldable pub is_root : Accounts → Bool
is_root a = a.current_uid == uid_root

-- The three bits of a mode that apply to a user.
unfoldable pub class_bits : Vnodes.Perm → ℕ → ℕ → ℕ
class_bits perm uid gid =
    if uid == perm.uid
    then bit_and (perm.mode / 2 ^ 6) 7
    else if gid == perm.gid
    then bit_and (perm.mode / 2 ^ 3) 7
    else bit_and perm.mode 7

unfoldable pub permits : Accounts → ℕ → Option Vnodes.Perm → Bool
permits a want none = false
permits a want (some perm) =
    let (uid, gid) = current_ids a in bit_and (class_bits perm uid gid) want == want

unfoldable pub allowed : Accounts → Vfs → ℕ → ℕ → Bool
allowed a s id want = if is_root a then true else permits a want (get_perm s id)

unfoldable pub may_modify_dir : Accounts → Vfs → ℕ → Bool
may_modify_dir a s id = allowed a s id (bit_or may_write may_execute)

abbrev pub is_digit : ℕ → Bool
is_digit c = leb b'0' c && leb c b'9'

-- The digits read on from a value, none when it leaves 32 bits.
unfoldable pub parse_digits : List ℕ → ℕ → Option ℕ
parse_digits [] v = some v
parse_digits (c ∷ cs) v =
    let rest = parse_digits cs (v * 10 + (c - b'0')) in
    if not (is_digit c)
    then none
    else if leb u32_mod (v * 10)
    then none
    else if leb u32_mod (v * 10 + (c - b'0'))
    then none
    else rest

unfoldable pub parse_u32 : List ℕ → Option ℕ
parse_u32 [] = none
parse_u32 (c ∷ cs) = parse_digits (c ∷ cs) 0

-- The digits of a number in front of others, the last digit first put; ten rounds do for 32 bits.
unfoldable pub push_digits : ℕ → ℕ → List ℕ → List ℕ
push_digits zero v out = out
push_digits (suc fuel) v out =
    let more = push_digits fuel (v / 10) ((b'0' + v % 10) ∷ out) in if v == 0 then out else more

-- What is written to a buffer of `room` bytes.
unfoldable pub u32_to_dec : ℕ → ℕ → List ℕ
u32_to_dec v room = take room (if v == 0 then b'0' ∷ [] else push_digits 10 v [])

abbrev pub hex_digit : ℕ → ℕ
hex_digit n = if ltb n 10 then b'0' + n else b'a' + (n - 10)

-- Two digits for each byte, for a buffer with room for them all.
unfoldable pub to_hex : List ℕ → List ℕ
to_hex [] = []
to_hex (b ∷ bs) = hex_digit (b / 16) ∷ hex_digit (b % 16) ∷ to_hex bs

unfoldable pub hex_val : ℕ → Option ℕ
hex_val c =
    if leb b'0' c && leb c b'9'
    then some (c - b'0')
    else if leb b'a' c && leb c b'f'
    then some (c - b'a' + 10)
    else if leb b'A' c && leb c b'F'
    then some (c - b'A' + 10)
    else none

abbrev pub join_hex : Option ℕ → Option ℕ → Option ℕ
join_hex (some h) (some l) = some (h * 16 + l)
join_hex _ _ = none

-- The bytes read before the text, the room or the hexadecimal digits end.
unfoldable pub from_hex : List ℕ → ℕ → List ℕ
from_hex (h ∷ l ∷ cs) (suc room) =
    let rest = from_hex cs room in
    elim (join_hex (hex_val h) (hex_val l)) [ none ↦ [] | some b ↦ b ∷ rest ]
from_hex _ _ = []

abbrev pub type_letter : VnodeType → ℕ
type_letter dir = b'd'
type_letter symlink = b'l'
type_letter _ = b'-'

-- The letters of one group of three bits.
unfoldable pub group_letters : ℕ → List ℕ
group_letters bits =
    (if bit_and bits 4 == 0 then b'-' else b'r')
    ∷ (if bit_and bits 2 == 0 then b'-' else b'w')
    ∷ (if bit_and bits 1 == 0 then b'-' else b'x')
    ∷ []

unfoldable pub format_mode : VnodeType → ℕ → List ℕ
format_mode vtype mode =
    type_letter vtype
    ∷ (group_letters (bit_and (mode / 2 ^ 6) 7)
        ++ group_letters (bit_and (mode / 2 ^ 3) 7)
        ++ group_letters (bit_and mode 7))
