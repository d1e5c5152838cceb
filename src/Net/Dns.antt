-- ===== src/Net/Dns.antt =====
-- kernel/src/net/dns.rs: the query that is outstanding, and what is read from an answer. A name is text, so
-- it is a list of its bytes; `skip_name` runs on fuel, one step for each byte of the message.
pub mod Skip
use barry_os.Common.{
  ℕ, [], List, if◌then◌else◌, Option, ◌++◌, not, ltb, leb, Bool, suc, ◌∷◌, length, some, ◌==◌, none,
  ◌&&◌, map, ◌||◌, ◌-◌, get_or, ◌+◌, ◌/◌, bit_or, zero, ◌%◌, false, true,
}
use barry_os.Common.Words.{u16_mod, add32, add64}
use barry_os.Net.Arp.{Ip, ip_to_u32, u32_to_ip, be16, read16}
use barry_os.Net.Ipv4.{read_ip}
use barry_os.Net.Wire.{Wire}
use barry_os.Net.Udp.{Udp, alloc_port, listen, send, dns_handler}

abbrev pub retry_ticks : ℕ
retry_ticks = 200

abbrev pub max_attempts : ℕ
max_attempts = 3

-- 0 idle, 1 waiting, 2 answered, 3 failed.
pub record Dns : Type 0 where
  pub server : ℕ
  pub local_port : ℕ
  pub query_id : ℕ
  pub last_send_tick : ℕ
  pub attempts : ℕ
  pub state : ℕ
  pub result : ℕ
  pub name : List ℕ
  pub queries : ℕ
  pub answers : ℕ

abbrev pub boot : Dns
boot = record {
  server = 0;
  local_port = 0;
  query_id = 0;
  last_send_tick = 0;
  attempts = 0;
  state = 0;
  result = 0;
  name = [];
  queries = 0;
  answers = 0;
}

unfoldable pub set_server : Dns → Ip → Dns
set_server d ip = record d { server = ip_to_u32 ip }

unfoldable pub init : Dns → Udp → ℕ → Dns × Udp
init d u tsc =
    let (p, u') = alloc_port u tsc in (record d { local_port = p }, listen u' p dns_handler)

unfoldable pub take_result : Dns → Option Ip × Dns
take_result d =
    if d.state == 2 then (some (u32_to_ip d.result), record d { state = 0 }) else (none, d)

abbrev pub to_ascii_lowercase : ℕ → ℕ
to_ascii_lowercase b = if leb b'A' b && leb b b'Z' then b + 32 else b

-- `text.split('.')`, with the label read so far.
unfoldable pub split_labels : List ℕ → List ℕ → List (List ℕ)
split_labels label [] = label ∷ []
split_labels label (b ∷ bs) =
    let ended = label ∷ split_labels [] bs in
    let longer = split_labels (label ++ b ∷ []) bs in if b == b'.' then ended else longer

-- The labels from position `at` of the message on, unless they do not fit in 256 bytes.
unfoldable pub put_labels : ℕ → List (List ℕ) → Option (List ℕ)
put_labels at [] = some []
put_labels at (label ∷ labels) =
    let skipped = put_labels at labels in
    let more = put_labels (at + 1 + length label) labels in
    if length label == 0
    then skipped
    else if leb 256 (at + 1 + length label)
    then none
    else elim more [ none ↦ none | some rest ↦ some (length label ∷ (label ++ rest)) ]

-- A standard query for an address.
abbrev pub query : ℕ → List ℕ → List ℕ
query id labels =
    be16 id
    ++ be16 0x0100
    ++ be16 1
    ++ (0 ∷ 0 ∷ 0 ∷ 0 ∷ 0 ∷ 0 ∷ [])
    ++ labels
    ++ (0 ∷ [])
    ++ be16 1
    ++ be16 1

unfoldable pub send_query : Dns → Udp → Wire → Dns × Udp × Wire
send_query d u w = elim (put_labels 12 (split_labels [] d.name)) [
  | none ↦ (record d { state = 3 }, u, w)
  | some labels ↦
      let (ok, u', w') = send u w (u32_to_ip d.server) 53 d.local_port (query d.query_id labels) in
      (record d { last_send_tick = w.now; queries = add64 d.queries 1 }, u', w')
]

unfoldable pub start : Dns → Udp → Wire → List ℕ → Bool × Dns × Udp × Wire
start d u w name =
    let asked = record d {
      name = map to_ascii_lowercase name;
      query_id = bit_or ((d.query_id + 1) % u16_mod) 0x0100;
      attempts = 0;
      state = 1;
    } in
    let (d', u', w') = send_query asked u w in
    if ltb 63 (length name) || length name == 0
    then (false, d, u, w)
    else if d.server == 0
    then (false, d, u, w)
    else (true, d', u', w')

unfoldable pub tick : Dns → Udp → Wire → Dns × Udp × Wire
tick d u w =
    let n = add32 d.attempts 1 in
    let counted = record d { attempts = n } in
    if not (d.state == 1)
    then (d, u, w)
    else if ltb (w.now - d.last_send_tick) retry_ticks
    then (d, u, w)
    else if leb max_attempts n
    then (record counted { state = 3 }, u, w)
    else send_query counted u w

-- The loop of `skip_name`: a pointer and the root label end a name.
unfoldable pub skip_from : List ℕ → ℕ → ℕ → Option ℕ
skip_from msg zero at = none
skip_from msg (suc fuel) at =
    let len = get_or msg at 0 in
    let rest = skip_from msg fuel (at + 1 + len) in
    if leb (length msg) at
    then none
    else if len / 64 == 3
    then (if ltb (at + 1) (length msg) then some (at + 2) else none)
    else if len == 0
    then some (at + 1)
    else rest

unfoldable pub skip_name : List ℕ → ℕ → Option ℕ
skip_name msg at = skip_from msg (length msg + 1) at

-- Past so many questions.
unfoldable pub skip_questions : List ℕ → ℕ → ℕ → Option ℕ
skip_questions msg zero at = some at
skip_questions msg (suc qd) at = elim (skip_name msg at) [
  | none ↦ none
  | some next ↦ skip_questions msg qd (next + 4)
]

-- What the answers say.
pub data Scan : Type 0 where
  malformed no_address : Scan
  address : Ip → Scan

unfoldable pub scan_answers : List ℕ → ℕ → ℕ → Scan
scan_answers msg zero at = no_address
scan_answers msg (suc an) at = elim (skip_name msg at) [
  | none ↦ malformed
  | some next ↦
      let rdlen = read16 msg (next + 8) in
      let rest = scan_answers msg an (next + 10 + rdlen) in
      if ltb (length msg) (next + 10)
      then malformed
      else if ltb (length msg) (next + 10 + rdlen)
      then malformed
      else if read16 msg next == 1 && rdlen == 4
      then address (read_ip msg (next + 10))
      else rest
]

unfoldable pub scan : List ℕ → Scan
scan msg = elim (skip_questions msg (read16 msg 4) 12) [
  | none ↦ malformed
  | some at ↦ scan_answers msg (read16 msg 6) at
]

unfoldable pub handle : Dns → List ℕ → Dns
handle d msg =
    if ltb (length msg) 12 || not (d.state == 1)
    then d
    else if not (read16 msg 0 == d.query_id)
    then d
    else if get_or msg 2 0 / 128 % 2 == 0
    then d
    else if not (get_or msg 3 0 % 16 == 0)
    then record d { state = 3 }
    else elim (scan msg) [
      | malformed ↦ d
      | no_address ↦ record d { state = 3 }
      | address ip ↦ record d { result = ip_to_u32 ip; state = 2; answers = add64 d.answers 1 }
    ]
