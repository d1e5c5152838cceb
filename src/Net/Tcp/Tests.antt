-- ===== src/Net/Tcp/Tests.antt =====
-- The theorems on the connection, at concrete blocks and segments.
use barry_os.Common.{
  arith, List, true, ◌≡◌, some, ◌∷◌, All-replicate, false, [], ◌++◌, inl, ℕ, refl, if◌then◌else◌,
}
use barry_os.Net.Arp.{Ip, remember, lookup, lookup_in, holds, choose_slot, ip_to_u32, u32_to_ip}
use barry_os.Net.Arp
use barry_os.Net.Ipv4
use barry_os.Net.Ipv4.{next_hop, on_link}
use barry_os.Net.Wire.{Wire}
use barry_os.Net.Wire
use barry_os.Net.Wire.Link.{IsUp}
use barry_os.Net.Tcp.Ring.{empty_ring, rx_len}
use barry_os.Net.Tcp.Stream.{IsRing, contents}
use barry_os.Net.Tcp.Refine.{Op, arrive, give_back, look, run, run_list, run_refines}
use barry_os.Net.Tcp.Block.{
  Tcp, IsShort, no_slot, established, boot, connect, send, close, failed, syn_sent,
}
use barry_os.Net.Tcp.Input.{handle, ack_advance}
use barry_os.Net.Tcp.Queue.{IsQueue, outstanding}
use barry_os.Net.Tcp.Queue.Enqueue.{takes, send_lem}
use barry_os.Net.Tcp.Queue.Acked.{unacked, first_seq, ack_advance_lem}
use barry_os.Net.Tcp.GiveUp.{IsWaiting, wait, wait-failed}
use barry_os.Net.Tcp.Reached.{
  IsTcp, stepped, booted, connects, sends, receives, closes, Reached, Reached-IsTcp,
}

abbrev server : Ip
server = record { o0 = 10; o1 = 0; o2 = 2; o3 = 2 }

abbrev server_mac : List ℕ
server_mac = 82 ∷ 85 ∷ 10 ∷ 0 ∷ 2 ∷ 2 ∷ []

abbrev our_mac : List ℕ
our_mac = 82 ∷ 84 ∷ 0 ∷ 18 ∷ 52 ∷ 86 ∷ []

-- A link on which the server's hardware address is known and every frame is taken.
abbrev link : Wire
link = record (Wire.boot (some our_mac) (λ frame. true)) {
  ip = record Ipv4.boot {
    arp = record Arp.boot {
      our_ip = 0x0A00_020F;
      cache = record { ip = 0x0A00_0202; mac = server_mac; valid = true } ∷ [];
    };
  };
}

link-IsUp : IsUp link (u32_to_ip 0x0A00_0202)
unfolding next_hop on_link lookup lookup_in holds u32_to_ip ip_to_u32
link-IsUp = record {
  mac = our_mac;
  hop_mac = server_mac;
  has_mac = refl;
  resolved = refl;
  takes = λ frame. refl;
}

empty_ring-IsRing : IsRing empty_ring
unfolding rx_len
empty_ring-IsRing = record { head_word = omega arith; tail_word = omega arith; fits = omega arith }

abbrev ops : List Op
ops = arrive (7 ∷ 8 ∷ 9 ∷ []) ∷ look 1 2 ∷ give_back 2 ∷ arrive (4 ∷ []) ∷ look 0 9 ∷ []

run_refines_example : run empty_ring ops ≡ run_list (contents empty_ring) ops
run_refines_example = run_refines ops empty_ring empty_ring-IsRing

-- An open connection to the server.
abbrev open_block : Tcp
open_block = record boot {
  active = true;
  state = established;
  remote_ip = 0x0A00_0202;
  remote_port = 80;
  local_port = 0xC001;
  snd_una = 100;
  snd_nxt = 100;
  rcv_nxt = 5000;
}

open_block-IsQueue : IsQueue open_block
open_block-IsQueue = record {
  head_word = omega arith;
  tail_word = omega arith;
  few = omega arith;
  slotted = refl;
  short = All-replicate IsShort 8 no_slot (omega arith);
}

-- The next two bytes from the server, with an acknowledgement.
abbrev next_segment : List ℕ
next_segment =
    0 ∷ 80 ∷ 0xC0 ∷ 1 ∷ 0 ∷ 0 ∷ 19 ∷ 136 ∷ 0 ∷ 0 ∷ 0 ∷ 100 ∷ 0x50 ∷ 0x10 ∷ 1 ∷ 0 ∷ 0 ∷ 0 ∷ 0 ∷ 0
    ∷ 72 ∷ 73 ∷ []

send_lem_example :
    let (ok, t', w') = send open_block link (1 ∷ 2 ∷ []) in
    IsQueue t'
    × (outstanding t' ≡ (
        if takes open_block (1 ∷ 2 ∷ [])
        then outstanding open_block ++ record { seq = 100; fin = false; payload = 1 ∷ 2 ∷ [] } ∷ []
        else outstanding open_block))
    × (takes open_block (1 ∷ 2 ∷ []) ≡ false
        → send open_block link (1 ∷ 2 ∷ []) ≡ (false, open_block, link))
send_lem_example = send_lem open_block link (1 ∷ 2 ∷ []) open_block-IsQueue

-- The same connection with two bytes on their way.
abbrev sent_block : Tcp
sent_block = (send open_block link (1 ∷ 2 ∷ [])).1

sent_block-IsQueue : IsQueue sent_block
sent_block-IsQueue = (send_lem open_block link (1 ∷ 2 ∷ []) open_block-IsQueue).0

ack_advance_lem_example :
    let t' = ack_advance sent_block 102 in
    (outstanding t' ≡ unacked 102 (outstanding sent_block))
    × IsQueue t'
    × (t'.snd_una ≡ first_seq (unacked 102 (outstanding sent_block)) sent_block.snd_nxt)
ack_advance_lem_example = ack_advance_lem sent_block 102 sent_block-IsQueue

-- A connection of which the SYN has gone out.
abbrev started : Tcp
started = record open_block { state = syn_sent; iss = 99 }

started-IsWaiting : IsWaiting started link
started-IsWaiting = record {
  active = refl;
  sized = All-replicate IsShort 8 no_slot (omega arith);
  pending = inl refl;
  sent_before = omega arith;
  up = link-IsUp;
}

wait-failed_example :
    ((wait 6 started link).0.state ≡ failed) × ((wait 6 started link).0.active ≡ false)
wait-failed_example = wait-failed 5 started link started-IsWaiting refl

-- The server's answer to our SYN, and a connection that is opened, sent on and closed.
abbrev syn_ack : List ℕ
syn_ack =
    0 ∷ 80 ∷ 0xC0 ∷ 1 ∷ 0 ∷ 0 ∷ 19 ∷ 136 ∷ 0 ∷ 0 ∷ 0 ∷ 100 ∷ 0x50 ∷ 0x12 ∷ 1 ∷ 0 ∷ 0 ∷ 0 ∷ 0 ∷ 0
    ∷ []

abbrev dialled : Tcp
dialled = (connect boot link server 80 0xC001 12345).1

abbrev answered : Tcp
answered = (handle dialled link server syn_ack).0

abbrev asked : Tcp
asked = (send answered link (1 ∷ 2 ∷ [])).1

asked-Reached : Reached asked
asked-Reached =
    stepped answered asked link
      (stepped dialled answered link
        (stepped boot dialled link booted (connects server 80 0xC001 12345))
        (receives server syn_ack))
      (sends (1 ∷ 2 ∷ []))

Reached-IsTcp_example : IsTcp (close asked link).0
Reached-IsTcp_example =
    Reached-IsTcp (close asked link).0
      (stepped asked (close asked link).0 link asked-Reached closes)
