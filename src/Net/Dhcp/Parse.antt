-- ===== src/Net/Dhcp/Parse.antt =====
-- kernel/src/net/dhcp.rs: the options of a received message. The loop runs on fuel, one step for each byte.
use barry_os.Common.{
  ℕ, none, List, if◌then◌else◌, length, Option, suc, ◌==◌, get_or, ◌&&◌, ◌+◌, some, leb, ltb, zero,
  ◌∷◌, [],
}
use barry_os.Net.Arp.{Ip, read32, slice}

-- What the options of a message say.
pub record Options : Type 0 where
  pub msg_type : ℕ
  pub mask : Option Ip
  pub router : Option Ip
  pub dns_server : Option Ip
  pub server_id : Option Ip
  pub lease : Option ℕ

abbrev pub no_options : Options
no_options = record {
  msg_type = 0;
  mask = none;
  router = none;
  dns_server = none;
  server_id = none;
  lease = none;
}

-- An address, if there are four bytes.
abbrev pub four : List ℕ → Option Ip
four (a ∷ b ∷ c ∷ d ∷ []) = some (record { o0 = a; o1 = b; o2 = c; o3 = d })
four _ = none

-- One option.
unfoldable pub take_option : Options → ℕ → List ℕ → Options
take_option o code bytes =
    if code == 53 && length bytes == 1
    then record o { msg_type = get_or bytes 0 0 }
    else if code == 1
    then record o { mask = four bytes }
    else if code == 3
    then record o { router = four bytes }
    else if code == 6
    then record o { dns_server = four bytes }
    else if code == 54
    then record o { server_id = four bytes }
    else if code == 51 && length bytes == 4
    then record o { lease = some (read32 bytes 0) }
    else o

unfoldable pub read_options : List ℕ → ℕ → ℕ → Options → Options
read_options payload zero opt o = o
read_options payload (suc fuel) opt o =
    let code = get_or payload opt 0 in
    let len = get_or payload (opt + 1) 0 in
    let padded = read_options payload fuel (opt + 1) o in
    let rest =
      read_options payload fuel (opt + 2 + len)
        (take_option o code (slice payload (opt + 2) len)) in
    if leb (length payload) opt
    then o
    else if code == 255
    then o
    else if code == 0
    then padded
    else if leb (length payload) (opt + 1)
    then o
    else if ltb (length payload) (opt + 2 + len)
    then o
    else rest

unfoldable pub options : List ℕ → Options
options payload = read_options payload (length payload) 240 no_options
