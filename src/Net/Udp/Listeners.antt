-- ===== src/Net/Udp/Listeners.antt =====
-- kernel/src/net/udp.rs: who gets a datagram.
use barry_os.Common.{
  none, some, List, ℕ, ◌≡◌, ◌∷◌, ◌++◌, if◌then◌else◌, [], ◌==◌, arith, refl, length, Option,
  ℕ_discrete, ◌<◌, ltb, none-ne-some, eq→==, ◌+◌, ne→==, sym, lt→ltb, ge→ltb, take_all, ◌-◌, take,
  ◌≤◌, drop, ap, ◌∙◌, ap₂,
}
use barry_os.Common.Words.{add64, u16_mod}
use barry_os.Net.Arp.{Ip, read16}
use barry_os.Net.Udp.{
  Udp, Listener, Handler, listen, find_listener, replace_listener, max_listeners, handle, datagram,
  Message,
}

-- The listener that is found after a table has been changed.
abbrev pub IsUpdate : List Listener → ℕ → Handler → List Listener → Type 0
IsUpdate ls port h ls' =
    (p : ℕ) → find_listener ls' p ≡ (if p == port then some h else find_listener ls p)

-- Replacing gives an updated table; it fails only when no listener is on the port.
abbrev IsReplaced : List Listener → ℕ → Handler → Option (List Listener) → Type 0
IsReplaced ls port h none = find_listener ls port ≡ none
IsReplaced ls port h (some ls') = IsUpdate ls port h ls'

replace_listener-IsReplaced :
    (ls : List Listener) (port : ℕ) (h : Handler)
    → IsReplaced ls port h (replace_listener ls port h)
unfolding replace_listener find_listener
replace_listener-IsReplaced [] port h = refl
replace_listener-IsReplaced (l ∷ ls) port h = elim (ℕ_discrete l.port port) [
  | yes e ↦ rw (eq→== l.port port e) (λ p. ground (arith, e))
  | no ne ↦ rw (ne→== l.port port ne) (
      elim (replace_listener ls port h)
          as (λ o.
            IsReplaced ls port h o
            → IsReplaced (l ∷ ls) port h (elim o as (λ q. Option (List Listener)) [
              | none ↦ none
              | some more ↦ some (l ∷ more)
            ])) [
              | none ↦ λ ih. rw (ne→== l.port port ne) ih
              | some more ↦ λ ih p. ground (arith, ne, ih p)
            ]
        (replace_listener-IsReplaced ls port h))
]

append-IsUpdate :
    (ls : List Listener) (port : ℕ) (h : Handler)
    → find_listener ls port ≡ none
    → IsUpdate ls port h (ls ++ record { port = port; handler = h } ∷ [])
unfolding find_listener
append-IsUpdate [] port h e p = ground arith
append-IsUpdate (l ∷ ls) port h e p = elim (ℕ_discrete l.port port) [
  | yes z ↦ absurd (none-ne-some (sym (rw (eq→== l.port port z) at e)))
  | no ne ↦
      let ih = append-IsUpdate ls port h (rw (ne→== l.port port ne) at e) p in
      ground (arith, ne, ih)
]

-- After `listen`, while there is room in the table, the function is the one found for its port, and
-- every other port has the function that it had.
pub find_listener-listen :
    (u : Udp) (port : ℕ) (h : Handler) (p : ℕ)
    → length u.listeners < max_listeners
    → find_listener (listen u port h).listeners p
      ≡ (if p == port then some h else find_listener u.listeners p)
unfolding listen
find_listener-listen u port h p room =
    elim (replace_listener u.listeners port h)
        as (λ o.
          IsReplaced u.listeners port h o
          → find_listener
              (elim o as (λ q. Udp) [
                | some ls ↦ record u { listeners = ls }
                | none ↦
                    if ltb (length u.listeners) max_listeners
                    then record u {
                      listeners = u.listeners ++ record { port = port; handler = h } ∷ [];
                    }
                    else u
              ]).listeners
              p
            ≡ (if p == port then some h else find_listener u.listeners p)) [
              | none ↦ λ e.
                  rw (lt→ltb (length u.listeners) 6 room) (append-IsUpdate u.listeners port h e p)
              | some ls ↦ λ f. f p
            ]
      (replace_listener-IsReplaced u.listeners port h)

handle_found :
    (u : Udp) (src : Ip) (body : List ℕ) (h : Handler)
    → 8 ≤ read16 body 4
    → read16 body 4 ≤ length body
    → find_listener u.listeners (read16 body 2) ≡ some h
    → handle u src body ≡ (
      record u { received = add64 u.received 1 },
      some (record {
        handler = h;
        src = src;
        src_port = read16 body 0;
        payload = take (read16 body 4 - 8) (drop 8 body);
      }),
    )
unfolding handle
handle_found u src body h a b f =
    rw
      (
        ge→ltb (length body) 8 (omega (arith, a, b)),
        ge→ltb (read16 body 4) 8 a,
        ge→ltb (length body) (read16 body 4) b,
        f,
      )
      refl

-- A datagram to a port with a listener is handed to it, with the sender's address and port and the
-- payload as it was sent.
pub handle-datagram :
    (u : Udp) (src : Ip) (src_port dst_port ck : ℕ) (payload : List ℕ) (h : Handler)
    → src_port < u16_mod
    → dst_port < u16_mod
    → 8 + length payload < u16_mod
    → find_listener u.listeners dst_port ≡ some h
    → handle u src (datagram src_port dst_port ck payload) ≡ (
      record u { received = add64 u.received 1 },
      some (record { handler = h; src = src; src_port = src_port; payload = payload }),
    )
handle-datagram u src src_port dst_port ck payload h a b c f =
    let body = datagram src_port dst_port ck payload in
    let n = 8 + length payload in
    let len : read16 body 4 ≡ n = omega arith in
    let to : read16 body 2 ≡ dst_port = omega arith in
    let from : read16 body 0 ≡ src_port = omega arith in
    let rest : take (read16 body 4 - 8) (drop 8 body) ≡ payload =
      take_all (read16 body 4 - 8) payload (omega (arith, len)) in
    let counted = record u { received = add64 u.received 1 } in
    handle_found u src body h (omega (arith, len)) (omega (arith, len))
      (ap (find_listener u.listeners) to ∙ f)
    ∙ ap₂ (λ p bs. (counted, some (record { handler = h; src = src; src_port = p; payload = bs })))
        from rest

-- After `listen` on a port, while there is room in the table, a datagram of 16-bit ports and
-- length to that port is handed to the function that was registered, with the sender's address and
-- port and the payload as it was sent; and a datagram to another port that has a function goes to
-- the one that was there before.
pub handle-listen :
    (u : Udp) (src : Ip) (port dst_port src_port ck : ℕ) (payload : List ℕ) (h k : Handler)
    → src_port < u16_mod
    → dst_port < u16_mod
    → 8 + length payload < u16_mod
    → length u.listeners < max_listeners
    → (if dst_port == port then some h else find_listener u.listeners dst_port) ≡ some k
    → (handle (listen u port h) src (datagram src_port dst_port ck payload)).1
      ≡ some (record { handler = k; src = src; src_port = src_port; payload = payload })
handle-listen u src port dst_port src_port ck payload h k a b c room e =
    ap (λ (o : Udp × Option Message). o.1)
      (handle-datagram (listen u port h) src src_port dst_port ck payload k a b c
        (find_listener-listen u port h dst_port room ∙ e))
