-- ===== src/Net/Icmp/Echo.antt =====
-- kernel/src/net/icmp.rs: an echo request, its answer, and what the answer does.
use barry_os.Common.{
  All, ◌≡◌, ◌<◌, suc, refl, ◌∷◌, [], arith, ap, ◌+◌, zero, ge→ltb, ◌/◌, ◌*◌, ◌%◌, ◌∙◌,
}
use barry_os.Net.Arp.{Ip}
use barry_os.Net.Ipv4.{checksum, proto_icmp}
use barry_os.Net.Ipv4.Sums.{IsByte, checksum-checksum}
use barry_os.Net.Wire.{Wire, ip_send}
use barry_os.Net.Icmp.{
  Icmp, letters, message, echo_body, echo_request, echo_reply, on_reply, handle, type_echo_reply, ℕ,
  length,
}

letters-IsByte : (n i : ℕ) → All IsByte (letters n i)
unfolding letters
letters-IsByte zero i = tt
letters-IsByte (suc n) i = (omega arith, letters-IsByte n (i + 1))

length-letters : (n i : ℕ) → length (letters n i) ≡ n
unfolding letters
length-letters zero i = refl
length-letters (suc n) i = ap suc (length-letters n (i + 1))

-- A message of either type checks.
message-checksum :
    (type seq : ℕ)
    → type < 256
    → seq < 65536
    → checksum (message type (checksum (message type 0 (echo_body seq))) (echo_body seq)) ≡ 0
message-checksum type seq t s =
    checksum-checksum (type ∷ 0 ∷ []) (echo_body seq) tt (t, (omega arith, tt))
      (omega arith, (omega arith, (omega arith, (omega arith, letters-IsByte 32 0))))
      (omega (arith, length-letters 32 0))

-- The answer to our request.
echo_reply-request :
    (seq : ℕ)
    → echo_reply (echo_request seq)
      ≡ message type_echo_reply
          (checksum (message type_echo_reply 0 (echo_body seq)))
          (echo_body seq)
unfolding echo_reply echo_request letters
echo_reply-request seq = refl

handle-request :
    (s : Icmp) (w : Wire) (src : Ip) (seq : ℕ)
    → seq < 65536
    → handle s w src (echo_request seq)
      ≡ (s, (ip_send w src proto_icmp (echo_reply (echo_request seq))).1)
unfolding handle echo_request
handle-request s w src seq h =
    rw (ge→ltb (length (echo_request seq)) 8 (omega arith), message-checksum 8 seq (omega arith) h)
      refl

handle_reply :
    (s : Icmp) (w : Wire) (src : Ip) (seq : ℕ)
    → seq < 65536
    → handle s w src (echo_reply (echo_request seq)) ≡ (on_reply s w src seq, w)
unfolding handle
handle_reply s w src seq h =
    let m =
      message type_echo_reply (checksum (message type_echo_reply 0 (echo_body seq)))
        (echo_body seq) in
    let number : seq / 256 * 256 + seq % 256 ≡ seq = omega arith in
    ap (handle s w src) (echo_reply-request seq)
    ∙ rw (ge→ltb (length m) 8 (omega arith), message-checksum 0 seq (omega arith) h, number) refl

-- For a sequence number of 16 bits: a machine that receives our echo request keeps its own state
-- and hands the echo reply to it over to the IPv4 layer; and that reply, when it is received, is
-- taken as the answer with that sequence number.
pub handle-echo :
    (s : Icmp) (w : Wire) (src : Ip) (seq : ℕ)
    → seq < 65536
    → (handle s w src (echo_request seq)
        ≡ (s, (ip_send w src proto_icmp (echo_reply (echo_request seq))).1))
      × (handle s w src (echo_reply (echo_request seq)) ≡ (on_reply s w src seq, w))
unfolding handle
handle-echo s w src seq h = (handle-request s w src seq h, handle_reply s w src seq h)
