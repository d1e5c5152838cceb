-- ===== src/Crypto/Der.antt =====
-- kernel/src/crypto/der.rs: the reader of tag-length-value data. A slice is the list of its bytes.
pub mod Read
use barry_os.Common.{
  ℕ, Option, List, get_or, ◌∷◌, if◌then◌else◌, ltb, ◌*◌, ◌%◌, not, ◌+◌, length, ◌==◌, ◌/◌, none,
  ◌||◌, some, [], take, drop,
}

abbrev pub tag_integer : ℕ
tag_integer = 0x02

abbrev pub tag_bit_string : ℕ
tag_bit_string = 0x03

pub record Tlv : Type 0 where
  pub tag : ℕ
  pub body : List ℕ
  pub full : List ℕ

-- The loop over the bytes of a length.
unfoldable pub be_value : ℕ → List ℕ → ℕ
be_value v [] = v
be_value v (b ∷ bs) = be_value (v * 256 + b) bs

-- The length of the contents and of what stands before them.
unfoldable pub read_length : List ℕ → Option (ℕ × ℕ)
read_length d =
    let first = get_or d 1 0 in
    let n = first % 128 in
    if first / 128 == 0
    then some (first, 2)
    else if n == 0 || ltb 4 n || ltb (length d) (2 + n)
    then none
    else some (be_value 0 (take n (drop 2 d)), 2 + n)

-- The value whose contents start behind a header, and the rest.
unfoldable pub cut : List ℕ → ℕ × ℕ → Option (Tlv × List ℕ)
cut d (len, hdr) =
    if ltb (length d) (hdr + len)
    then none
    else some (
      record { tag = get_or d 0 0; body = take len (drop hdr d); full = take (hdr + len) d },
      drop (hdr + len) d,
    )

unfoldable pub read : List ℕ → Option (Tlv × List ℕ)
read d =
    let value = elim (read_length d) as (λ o. Option (Tlv × List ℕ)) [
      | none ↦ none
      | some sizes ↦ cut d sizes
    ] in
    if ltb (length d) 2 then none else value

-- A `Reader` is the slice that it has left.
unfoldable pub next : List ℕ → Option Tlv × List ℕ
next d = elim (read d) [ none ↦ (none, d) | some (t, rest) ↦ (some t, rest) ]

unfoldable pub expect : List ℕ → ℕ → Option Tlv × List ℕ
expect d tag = elim (read d) [
  | none ↦ (none, d)
  | some (t, rest) ↦ (if t.tag == tag then (some t, rest) else (none, d))
]

unfoldable pub parse_one : List ℕ → Option Tlv
parse_one d = elim (read d) [
  | none ↦ none
  | some (t, rest) ↦ (if length rest == 0 then some t else none)
]

unfoldable pub int_bytes : Tlv → Option (List ℕ)
int_bytes t =
    if not (t.tag == tag_integer) || length t.body == 0
    then none
    else if get_or t.body 0 0 == 0
    then some (drop 1 t.body)
    else some t.body

unfoldable pub bit_string : Tlv → Option (List ℕ)
bit_string t =
    if not (t.tag == tag_bit_string) || length t.body == 0
    then none
    else if not (get_or t.body 0 0 == 0)
    then none
    else some (drop 1 t.body)
