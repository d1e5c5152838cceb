-- ===== src/Net/Arp.antt =====
-- kernel/src/net/arp.rs: IPv4 addresses as words, the cache of hardware addresses, and the frames.
-- The adapter's own address is an argument; a frame to send is part of the result. The log is left out.
pub mod Address
pub mod Cache
use barry_os.Common.{
  ℕ, replicate, List, Option, Bool, set, ◌++◌, ◌∷◌, [], take, none, get_or, if◌then◌else◌, some,
  false, ◌*◌, ◌/◌, true, drop, ltb, ◌&&◌, ◌==◌, ◌+◌, ◌^◌, ◌%◌, not, ◌||◌, length, ◌-◌, leb,
}
use Prim.Native.Nat.{zero, suc}
use barry_os.Common.Words.{u32_mod, add32}

-- Four octets, the first one first.
pub record Ip : Type 0 where
  pub o0 : ℕ
  pub o1 : ℕ
  pub o2 : ℕ
  pub o3 : ℕ

abbrev pub ethertype_arp : ℕ
ethertype_arp = 0x0806

abbrev pub arp_request : ℕ
arp_request = 1

abbrev pub arp_reply : ℕ
arp_reply = 2

abbrev pub cache_size : ℕ
cache_size = 8

pub record Entry : Type 0 where
  pub ip : ℕ
  pub mac : List ℕ
  pub valid : Bool

abbrev pub no_entry : Entry
no_entry = record { ip = 0; mac = replicate 6 0; valid = false }

pub record Arp : Type 0 where
  pub our_ip : ℕ
  pub cache : List Entry
  pub requests_sent : ℕ
  pub replies_seen : ℕ

abbrev pub boot : Arp
boot = record {
  our_ip = 0;
  cache = replicate cache_size no_entry;
  requests_sent = 0;
  replies_seen = 0;
}

-- Octets in disjoint bits, so that `|` adds them.
unfoldable pub ip_to_u32 : Ip → ℕ
ip_to_u32 ip = ip.o0 * 2 ^ 24 + ip.o1 * 2 ^ 16 + ip.o2 * 2 ^ 8 + ip.o3

unfoldable pub u32_to_ip : ℕ → Ip
u32_to_ip v = record {
  o0 = v / 2 ^ 24 % 256;
  o1 = v / 2 ^ 16 % 256;
  o2 = v / 2 ^ 8 % 256;
  o3 = v % 256;
}

unfoldable pub set_our_ip : Arp → Ip → Arp
set_our_ip s ip = record s { our_ip = ip_to_u32 ip }

unfoldable pub holds : ℕ → Entry → Bool
holds ip e = e.valid && e.ip == ip

-- The first entry from `es` that holds the address.
unfoldable pub lookup_in : ℕ → List Entry → Option (List ℕ)
lookup_in key [] = none
lookup_in key (e ∷ es) = if holds key e then some e.mac else lookup_in key es

unfoldable pub lookup : Arp → Ip → Option (List ℕ)
lookup s ip = lookup_in (ip_to_u32 ip) s.cache

-- The loop of `remember`, from entry `i` on, with the slot that it has chosen so far.
unfoldable pub choose_slot : ℕ → List Entry → ℕ → ℕ → ℕ
choose_slot ip [] i slot = slot
choose_slot ip (e ∷ es) i slot =
    let free = choose_slot ip es (i + 1) i in
    let onward = choose_slot ip es (i + 1) slot in
    if holds ip e then i else if not e.valid && slot == 0 then free else onward

unfoldable pub remember : Arp → ℕ → List ℕ → Arp
remember s ip mac = record s {
  cache = set s.cache (choose_slot ip s.cache 0 0) (record { ip = ip; mac = mac; valid = true });
}

-- `to_be_bytes` on `u16` and `u32`.
abbrev pub be16 : ℕ → List ℕ
be16 v = v / 256 ∷ v % 256 ∷ []

abbrev pub be32 : ℕ → List ℕ
be32 v = v / 2 ^ 24 ∷ v / 2 ^ 16 % 256 ∷ v / 2 ^ 8 % 256 ∷ v % 256 ∷ []

-- A frame: both hardware addresses, then the ARP fields.
abbrev pub arp_frame : List ℕ → List ℕ → ℕ → ℕ → List ℕ → List ℕ → List ℕ
arp_frame to our_mac oper our target_mac target =
    to
    ++ our_mac
    ++ be16 ethertype_arp
    ++ be16 1
    ++ be16 0x0800
    ++ (6 ∷ 4 ∷ [])
    ++ be16 oper
    ++ our_mac
    ++ be32 our
    ++ target_mac
    ++ target

-- The request for an address, broadcast.
unfoldable pub request_frame : Arp → List ℕ → Ip → List ℕ
request_frame s our_mac target =
    arp_frame (replicate 6 0xFF) our_mac arp_request s.our_ip (replicate 6 0)
      (be32 (ip_to_u32 target))

-- Whether it was sent, given what the adapter answers, the new state, and the frame handed over.
unfoldable pub request : Arp → Option (List ℕ) → (List ℕ → Bool) → Ip → Bool × Arp × Option (List ℕ)
request s none send_frame target = (false, s, none)
request s (some our_mac) send_frame target =
    let frame = request_frame s our_mac target in
    if send_frame frame
    then (true, record s { requests_sent = add32 s.requests_sent 1 }, some frame)
    else (false, s, some frame)

-- `n` bytes of a frame from an offset, and a big-endian number there.
abbrev pub slice : List ℕ → ℕ → ℕ → List ℕ
slice frame from n = take n (drop from frame)

abbrev pub read16 : List ℕ → ℕ → ℕ
read16 frame i = get_or frame i 0 * 256 + get_or frame (i + 1) 0

abbrev pub read32 : List ℕ → ℕ → ℕ
read32 frame i = read16 frame i * 2 ^ 16 + read16 frame (i + 2)

-- The answer to a request aimed at us.
unfoldable pub reply_to : Arp → Option (List ℕ) → List ℕ → Option (List ℕ)
reply_to s none frame = none
reply_to s (some our_mac) frame =
    if ltb (length frame) 42
    then none
    else if not (read32 frame 38 == s.our_ip)
    then none
    else some (
        arp_frame (slice frame 22 6) our_mac arp_reply s.our_ip (slice frame 22 6)
          (slice frame 28 4))

-- One received frame: the new state and the answer, if any.
unfoldable pub handle_frame : Arp → Option (List ℕ) → List ℕ → Arp × Option (List ℕ)
handle_frame s our_mac frame =
    let oper = read16 frame 20 in
    let known = remember s (read32 frame 28) (slice frame 22 6) in
    if ltb (length frame) 14
    then (s, none)
    else if not (read16 frame 12 == ethertype_arp) || ltb (length frame) 42
    then (s, none)
    else if oper == arp_reply
    then (record known { replies_seen = add32 s.replies_seen 1 }, none)
    else if oper == arp_request
    then (s, reply_to s our_mac frame)
    else (s, none)

-- The loop of `parse_ip`: the octets so far, the current one and its digits.
unfoldable pub parse_octets : List ℕ → List ℕ → ℕ → ℕ → Option (List ℕ)
parse_octets [] out cur digits =
    if digits == 0 || not (length out == 3) then none else some (out ++ cur ∷ [])
parse_octets (ch ∷ chs) out cur digits =
    let value = cur * 10 + (ch - b'0') in
    let next = parse_octets chs out value (digits + 1) in
    let dotted = parse_octets chs (out ++ cur ∷ []) 0 0 in
    if leb b'0' ch && leb ch b'9'
    then (if ltb 255 value || ltb 3 (digits + 1) then none else next)
    else if ch == b'.'
    then (if digits == 0 || leb 3 (length out) then none else dotted)
    else none

unfoldable pub parse_ip : List ℕ → Option (List ℕ)
parse_ip s = parse_octets s [] 0 0
