-- ===== src/Net/Tests.antt =====
-- The theorems on the network at concrete addresses and messages.
use barry_os.Common.{refl, arith, ◌≡◌, some, List, ℕ, ◌∷◌, []}
use barry_os.Common.{true, false, ◌++◌}
use barry_os.Net.Ipv4
use barry_os.Net.Ipv4.{checksum}
use barry_os.Net.Ipv4.Sums.{checksum-checksum}
use barry_os.Net.Wire
use barry_os.Net.Wire.{ip_send}
use barry_os.Net.Udp
use barry_os.Net.Udp.{alloc_port, listen, dhcp_handler, ephemeral_base, ephemeral_span}
use barry_os.Net.Icmp
use barry_os.Net.Icmp.{echo_request, echo_reply, on_reply}
use barry_os.Net.Tcp.Block
use barry_os.Net.Dns
use barry_os.Net.Dns.{skip_name, skip_from}
use barry_os.Net.Dns.Skip.{IsPast, skip_name_lem}
use barry_os.Net.Dhcp
use barry_os.Net.Dhcp.{Dhcp, discovering, failed}
use barry_os.Net.Dhcp.OptionList.{Item}
use barry_os.Net.Dhcp.GiveUp.{IsAsking, silence, silence-failed}
use barry_os.Net.Stack.{Stack, dispatch, deliver}
use barry_os.Net.Stack.EndToEnd.{counted, dispatch-datagram}
use barry_os.Net.Arp.{Ip, boot, ip_to_u32, be16}
use barry_os.Net.Arp.Address.{IsIp}

abbrev gateway : Ip
gateway = record { o0 = 10; o1 = 0; o2 = 2; o3 = 2 }

gateway-IsIp : IsIp gateway
gateway-IsIp = record { b0 = omega arith; b1 = omega arith; b2 = omega arith; b3 = omega arith }

abbrev mac : List ℕ
mac = 82 ∷ 85 ∷ 10 ∷ 0 ∷ 2 ∷ 2 ∷ []

checksum-checksum_example :
    checksum (
      (0x45 ∷ 0 ∷ [])
      ++ (be16 (checksum ((0x45 ∷ 0 ∷ []) ++ (be16 0 ++ (1 ∷ 2 ∷ 3 ∷ [])))) ++ (1 ∷ 2 ∷ 3 ∷ [])))
    ≡ 0
checksum-checksum_example =
    checksum-checksum (0x45 ∷ 0 ∷ []) (1 ∷ 2 ∷ 3 ∷ []) tt (omega arith, (omega arith, tt))
      (omega arith, (omega arith, (omega arith, tt))) (omega arith)

-- The gateway's machine, with its address set.
abbrev machine : Stack
machine = record {
  present = true;
  fallback_applied = false;
  wire = record (Wire.boot (some mac) (λ frame. true)) {
    ip = record Ipv4.boot { arp = record boot { our_ip = 0x0A00_0202 } };
  };
  udp = Udp.boot;
  icmp = Icmp.boot;
  tcp = Block.boot;
  dns = Dns.boot;
  dhcp = Dhcp.boot;
}

abbrev guest : Ip
guest = record { o0 = 10; o1 = 0; o2 = 2; o3 = 15 }

guest-IsIp : IsIp guest
guest-IsIp = record { b0 = omega arith; b1 = omega arith; b2 = omega arith; b3 = omega arith }

machine_address : machine.wire.ip.arp.our_ip ≡ ip_to_u32 gateway
unfolding ip_to_u32
machine_address = refl

dispatch-datagram_example :
    dispatch machine (Ipv4.datagram mac mac guest gateway 17 7 (1 ∷ 2 ∷ 3 ∷ []))
    ≡ deliver (counted machine) (record { src = guest; proto = 17; body = 1 ∷ 2 ∷ 3 ∷ [] })
dispatch-datagram_example =
    dispatch-datagram machine mac mac guest gateway 17 7 (1 ∷ 2 ∷ 3 ∷ []) refl refl guest-IsIp
      gateway-IsIp (omega arith) (omega arith) (omega arith) machine_address

-- A name of one label, and a pointer.
abbrev answer : List ℕ
answer = 3 ∷ 119 ∷ 119 ∷ 119 ∷ 0 ∷ 0xC0 ∷ 0 ∷ []

skip_name_lem_example :
    IsPast answer 0 (skip_name answer 0) × (skip_from answer 18 0 ≡ skip_name answer 0)
skip_name_lem_example = skip_name_lem answer 0 10

abbrev lease_items : List Item
lease_items =
    record { code = 53; bytes = 5 ∷ [] } ∷ record { code = 3; bytes = 10 ∷ 0 ∷ 2 ∷ 2 ∷ [] } ∷ []

-- The exchange after the first message.
abbrev asking : Dhcp
asking = record Dhcp.boot { state = discovering }

asking-IsAsking : IsAsking asking machine.wire
asking-IsAsking = record { asking = refl; asked_before = omega arith }

silence-failed_example : (silence 4 asking Udp.boot machine.wire).0.state ≡ failed
silence-failed_example = silence-failed 3 asking Udp.boot machine.wire asking-IsAsking refl
