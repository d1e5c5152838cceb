-- ===== src/Net/Arp/Cache.antt =====
-- What the cache remembers.
use Prim.Native.Nat.{zero, suc}
use barry_os.Common.{
  inl, inr, ℕ, List, arith, ◌≡◌, length, ◌∷◌, ◌<◌, true, some, Bool-cases, get_or, false, ◌+◌,
  if-cases, ◌⊎◌, eq→==, set, not, refl, [], ◌&&◌, ◌==◌,
}
use barry_os.Net.Arp.{
  Arp, Entry, no_entry, cache_size, holds, lookup_in, lookup, choose_slot, remember, ip_to_u32, Ip,
}

-- No entry in front of number `k` holds the address.
abbrev Clear : ℕ → List Entry → ℕ → Type 0
Clear ip es k = (j : ℕ) → j < k → holds ip (get_or es j no_entry) ≡ false

lookup_in-set :
    (ip : ℕ) (es : List Entry) (k : ℕ) (e : Entry)
    → k < length es
    → Clear ip es k
    → holds ip e ≡ true
    → lookup_in ip (set es k e) ≡ some e.mac
unfolding lookup_in
lookup_in-set ip [] k e lt c h = absurd (omega arith)
lookup_in-set ip (x ∷ es) zero e lt c h = rw h refl
lookup_in-set ip (x ∷ es) (suc k) e lt c h =
    rw (c 0 (omega arith))
      (lookup_in-set ip es k e (omega arith) (λ j b. c (suc j) (omega arith)) h)

-- The slot is one with no match in front, or the one chosen before, with no match at all.
abbrev Chosen : ℕ → List Entry → ℕ → ℕ → ℕ → Type 0
Chosen ip es i slot r =
    ((m : ℕ) × (r ≡ i + m) × (m < length es) × Clear ip es m)
    ⊎ ((r ≡ slot) × Clear ip es (length es))

Clear-cons :
    (ip : ℕ) (x : Entry) (es : List Entry) (k : ℕ)
    → holds ip x ≡ false
    → Clear ip es k
    → Clear ip (x ∷ es) (suc k)
Clear-cons ip x es k h c zero lt = h
Clear-cons ip x es k h c (suc j) lt = c j (omega arith)

Chosen-cons :
    (ip : ℕ) (x : Entry) (es : List Entry) (i slot r : ℕ)
    → holds ip x ≡ false
    → Chosen ip es (i + 1) slot r
    → Chosen ip (x ∷ es) i slot r
Chosen-cons ip x es i slot r h (inl (m, e, lt, c)) =
    inl (suc m, omega arith, omega arith, Clear-cons ip x es m h c)
Chosen-cons ip x es i slot r h (inr (e, c)) = inr (e, Clear-cons ip x es (length es) h c)

taken_up :
    (ip : ℕ) (x : Entry) (es : List Entry) (i slot r : ℕ)
    → Chosen ip (x ∷ es) i i r
    → Chosen ip (x ∷ es) i slot r
taken_up ip x es i slot r (inl c) = inl c
taken_up ip x es i slot r (inr (e, c)) =
    inl (0, omega arith, omega arith, (λ j lt. absurd (omega arith)))

choose_slot_lem :
    (ip : ℕ) (es : List Entry) (i slot : ℕ) → Chosen ip es i slot (choose_slot ip es i slot)
unfolding choose_slot
choose_slot_lem ip [] i slot = inr (refl, (λ j lt. absurd (omega arith)))
choose_slot_lem ip (x ∷ es) i slot = elim (Bool-cases (holds ip x)) [
  | inl t ↦ rw (t) (inl (0, omega arith, omega arith, (λ j lt. absurd (omega arith))))
  | inr f ↦ rw (f) (
      if-cases (Chosen ip (x ∷ es) i slot) (not x.valid && slot == 0) _ _
        (λ a.
          taken_up ip x es i slot _ (Chosen-cons ip x es i i _ f (choose_slot_lem ip es (i + 1) i)))
        (λ b. Chosen-cons ip x es i slot _ f (choose_slot_lem ip es (i + 1) slot)))
]

-- With a cache of its full size, an address that was just remembered is found, whatever entry it
-- has replaced.
lookup-remember :
    (s : Arp) (ip : Ip) (mac : List ℕ)
    → length s.cache ≡ cache_size
    → lookup (remember s (ip_to_u32 ip) mac) ip ≡ some mac
unfolding lookup remember holds
lookup-remember s ip mac sized =
    let key = ip_to_u32 ip in
    let r = choose_slot key s.cache 0 0 in
    elim (choose_slot_lem key s.cache 0 0) [
      | inl (m, e, lt, c) ↦
          lookup_in-set key s.cache r (record { ip = key; mac = mac; valid = true }) (omega arith)
            (λ j b. c j (omega arith)) (new_holds key mac)
      | inr (e, c) ↦
          lookup_in-set key s.cache r (record { ip = key; mac = mac; valid = true }) (omega arith)
            (λ j b. absurd (omega arith)) (new_holds key mac)
    ]
  where
    new_holds :
        (key : ℕ) (mac : List ℕ) → holds key (record { ip = key; mac = mac; valid = true }) ≡ true
    new_holds key mac = rw (eq→== key key refl) refl
