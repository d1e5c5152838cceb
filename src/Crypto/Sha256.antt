-- ===== src/Crypto/Sha256.antt =====
-- kernel/src/sha256.rs: the streaming hash. A byte array is the list of its bytes, and a word of 32
-- bits a number with its wrap-around written out.
pub mod Machine
pub mod Stream
pub mod Message
use barry_os.Common.Words.{add64, add32, mul64, u32_mod}
use barry_os.Common.{
  ℕ, List, replicate, if◌then◌else◌, ◌∷◌, Bool, ◌==◌, ltb, ◌/◌, bit_xor, bit_or, ◌-◌, get_or, suc,
  ◌++◌, set, take, ◌+◌, length, ◌%◌, [], ◌*◌, bit_and, write_at, drop, ◌^◌, ◌&&◌, zero,
}

-- K and H0.
abbrev pub k_table : List ℕ
k_table =
    0x428a2f98 ∷ 0x71374491 ∷ 0xb5c0fbcf ∷ 0xe9b5dba5 ∷ 0x3956c25b ∷ 0x59f111f1 ∷ 0x923f82a4
    ∷ 0xab1c5ed5 ∷ 0xd807aa98 ∷ 0x12835b01 ∷ 0x243185be ∷ 0x550c7dc3 ∷ 0x72be5d74 ∷ 0x80deb1fe
    ∷ 0x9bdc06a7 ∷ 0xc19bf174 ∷ 0xe49b69c1 ∷ 0xefbe4786 ∷ 0x0fc19dc6 ∷ 0x240ca1cc ∷ 0x2de92c6f
    ∷ 0x4a7484aa ∷ 0x5cb0a9dc ∷ 0x76f988da ∷ 0x983e5152 ∷ 0xa831c66d ∷ 0xb00327c8 ∷ 0xbf597fc7
    ∷ 0xc6e00bf3 ∷ 0xd5a79147 ∷ 0x06ca6351 ∷ 0x14292967 ∷ 0x27b70a85 ∷ 0x2e1b2138 ∷ 0x4d2c6dfc
    ∷ 0x53380d13 ∷ 0x650a7354 ∷ 0x766a0abb ∷ 0x81c2c92e ∷ 0x92722c85 ∷ 0xa2bfe8a1 ∷ 0xa81a664b
    ∷ 0xc24b8b70 ∷ 0xc76c51a3 ∷ 0xd192e819 ∷ 0xd6990624 ∷ 0xf40e3585 ∷ 0x106aa070 ∷ 0x19a4c116
    ∷ 0x1e376c08 ∷ 0x2748774c ∷ 0x34b0bcb5 ∷ 0x391c0cb3 ∷ 0x4ed8aa4a ∷ 0x5b9cca4f ∷ 0x682e6ff3
    ∷ 0x748f82ee ∷ 0x78a5636f ∷ 0x84c87814 ∷ 0x8cc70208 ∷ 0x90befffa ∷ 0xa4506ceb ∷ 0xbef9a3f7
    ∷ 0xc67178f2 ∷ []

abbrev pub h0 : List ℕ
h0 =
    0x6a09e667 ∷ 0xbb67ae85 ∷ 0x3c6ef372 ∷ 0xa54ff53a ∷ 0x510e527f ∷ 0x9b05688c ∷ 0x1f83d9ab
    ∷ 0x5be0cd19 ∷ []

pub record Sha256 : Type 0 where
  pub h : List ℕ
  pub buf : List ℕ
  pub buf_len : ℕ
  pub total : ℕ

abbrev pub new : Sha256
new = record { h = h0; buf = replicate 64 0; buf_len = 0; total = 0 }

unfoldable pub rotate_right : ℕ → ℕ → ℕ
rotate_right x n = bit_or (x / 2 ^ n) (x * 2 ^ (32 - n) % u32_mod)

-- The word at offset `i` of a block.
unfoldable pub be_word : List ℕ → ℕ → ℕ
be_word block i =
    get_or block i 0 * 2 ^ 24
    + get_or block (i + 1) 0 * 2 ^ 16
    + get_or block (i + 2) 0 * 2 ^ 8
    + get_or block (i + 3) 0

-- The loop over the first sixteen words, from word `i` on.
unfoldable pub load_words : ℕ → ℕ → List ℕ → List ℕ → List ℕ
unfolding be_word
load_words zero i block w = w
load_words (suc n) i block w = load_words n (i + 1) block (set w i (be_word block (i * 4)))

-- One word of the message schedule.
unfoldable pub extend_word : List ℕ → ℕ → ℕ
unfolding rotate_right
extend_word w i =
    let x = get_or w (i - 15) 0 in
    let y = get_or w (i - 2) 0 in
    let s0 = bit_xor (bit_xor (rotate_right x 7) (rotate_right x 18)) (x / 2 ^ 3) in
    let s1 = bit_xor (bit_xor (rotate_right y 17) (rotate_right y 19)) (y / 2 ^ 10) in
    add32 (add32 (add32 (get_or w (i - 16) 0) s0) (get_or w (i - 7) 0)) s1

unfoldable pub extend_words : ℕ → ℕ → List ℕ → List ℕ
unfolding extend_word
extend_words zero i w = w
extend_words (suc n) i w = extend_words n (i + 1) (set w i (extend_word w i))

-- The eight working variables.
pub record Vars : Type 0 where
  pub a : ℕ
  pub b : ℕ
  pub c : ℕ
  pub d : ℕ
  pub e : ℕ
  pub f : ℕ
  pub g : ℕ
  pub h : ℕ

-- The body of the loop over the 64 rounds.
unfoldable pub round : ℕ → List ℕ → Vars → Vars
unfolding rotate_right
round i w v =
    let s1 = bit_xor (bit_xor (rotate_right v.e 6) (rotate_right v.e 11)) (rotate_right v.e 25) in
    let ch = bit_xor (bit_and v.e v.f) (bit_and (u32_mod - 1 - v.e) v.g) in
    let t1 = add32 (add32 (add32 (add32 v.h s1) ch) (get_or k_table i 0)) (get_or w i 0) in
    let s0 = bit_xor (bit_xor (rotate_right v.a 2) (rotate_right v.a 13)) (rotate_right v.a 22) in
    let maj = bit_xor (bit_xor (bit_and v.a v.b) (bit_and v.a v.c)) (bit_and v.b v.c) in
    let t2 = add32 s0 maj in
    record {
      h = v.g;
      g = v.f;
      f = v.e;
      e = add32 v.d t1;
      d = v.c;
      c = v.b;
      b = v.a;
      a = add32 t1 t2;
    }

unfoldable pub rounds : ℕ → ℕ → List ℕ → Vars → Vars
unfolding round
rounds zero i w v = v
rounds (suc n) i w v = rounds n (i + 1) w (round i w v)

unfoldable pub load_vars : List ℕ → Vars
load_vars hs = record {
  a = get_or hs 0 0;
  b = get_or hs 1 0;
  c = get_or hs 2 0;
  d = get_or hs 3 0;
  e = get_or hs 4 0;
  f = get_or hs 5 0;
  g = get_or hs 6 0;
  h = get_or hs 7 0;
}

-- The new chaining values for a block of 64 bytes.
unfoldable pub compress : List ℕ → List ℕ → List ℕ
unfolding load_words extend_words rounds load_vars
compress hs block =
    let w = extend_words 48 16 (load_words 16 0 block (replicate 64 0)) in
    let o = load_vars hs in
    let v = rounds 64 0 w o in
    add32 o.a v.a
    ∷ add32 o.b v.b
    ∷ add32 o.c v.c
    ∷ add32 o.d v.d
    ∷ add32 o.e v.e
    ∷ add32 o.f v.f
    ∷ add32 o.g v.g
    ∷ add32 o.h v.h
    ∷ []

-- A full buffer is compressed and emptied.
unfoldable pub flush : Sha256 → Sha256
flush s = if s.buf_len == 64 then record s { h = compress s.h s.buf; buf_len = 0 } else s

-- The bytes that complete a block begun before, and those left over.
unfoldable pub fill : Sha256 → List ℕ → Sha256 × List ℕ
unfolding flush
fill s bytes =
    let need = 64 - s.buf_len in
    let n = if ltb (length bytes) need then length bytes else need in
    (
      flush (record s { buf = write_at s.buf s.buf_len (take n bytes); buf_len = s.buf_len + n }),
      drop n bytes,
    )

-- The loop over whole blocks; each round takes 64 bytes, so as many rounds as bytes are enough.
unfoldable pub whole_blocks : ℕ → Sha256 → List ℕ → Sha256 × List ℕ
whole_blocks zero s bytes = (s, bytes)
whole_blocks (suc fuel) s bytes =
    let next = record s { h = compress s.h (take 64 bytes) } in
    let rest = whole_blocks fuel next (drop 64 bytes) in
    if ltb (length bytes) 64 then (s, bytes) else rest

unfoldable pub keep_tail : Sha256 → List ℕ → Sha256
keep_tail s [] = s
keep_tail s (b ∷ bs) = record s { buf = write_at s.buf 0 (b ∷ bs); buf_len = length (b ∷ bs) }

unfoldable pub update : Sha256 → List ℕ → Sha256
unfolding fill whole_blocks keep_tail
update s bytes =
    let counted = record s { total = add64 s.total (length bytes) } in
    let (filled, left) = if ltb 0 s.buf_len then fill counted bytes else (counted, bytes) in
    let (done, tail) = whole_blocks (length left) filled left in keep_tail done tail

unfoldable pub update_no_len : Sha256 → List ℕ → Sha256
unfolding flush
update_no_len s [] = s
update_no_len s (b ∷ bs) =
    update_no_len (flush (record s { buf = set s.buf s.buf_len b; buf_len = s.buf_len + 1 })) bs

unfoldable pub be32 : ℕ → List ℕ
be32 x = (x / 2 ^ 24 % 256) ∷ (x / 2 ^ 16 % 256) ∷ (x / 2 ^ 8 % 256) ∷ (x % 256) ∷ []

unfoldable pub be64 : ℕ → List ℕ
unfolding be32
be64 x = be32 (x / 2 ^ 32) ++ be32 x

unfoldable pub words_to_bytes : List ℕ → List ℕ
unfolding be32
words_to_bytes [] = []
words_to_bytes (x ∷ xs) = be32 x ++ words_to_bytes xs

-- The padding in its buffer of 72 bytes, cut to its length.
unfoldable pub padding : Sha256 → List ℕ
unfolding be64
padding s =
    let pad_len = if ltb s.buf_len 56 then 56 - s.buf_len else 120 - s.buf_len in
    let pad = set (replicate 72 0) 0 0x80 in
    take (pad_len + 8) (write_at pad pad_len (be64 (mul64 s.total 8)))

unfoldable pub finish : Sha256 → List ℕ
unfolding padding update_no_len words_to_bytes
finish s = words_to_bytes (update_no_len s (padding s)).h

unfoldable pub hash : List ℕ → List ℕ
unfolding finish update
hash bytes = finish (update new bytes)

-- The two hexadecimal digits of each byte.
abbrev pub hex_digits : List ℕ
hex_digits =
    b'0' ∷ b'1' ∷ b'2' ∷ b'3' ∷ b'4' ∷ b'5' ∷ b'6' ∷ b'7' ∷ b'8' ∷ b'9' ∷ b'a' ∷ b'b' ∷ b'c' ∷ b'd'
    ∷ b'e' ∷ b'f' ∷ []

unfoldable pub bytes_to_hex : List ℕ → List ℕ
bytes_to_hex [] = []
bytes_to_hex (b ∷ bs) =
    get_or hex_digits (b / 16) 0 ∷ get_or hex_digits (b % 16) 0 ∷ bytes_to_hex bs

unfoldable pub hash_hex : List ℕ → List ℕ
unfolding bytes_to_hex hash
hash_hex bytes = bytes_to_hex (hash bytes)

-- The loop that gathers the differing bits.
unfoldable pub difference : ℕ → List ℕ → List ℕ → ℕ
difference diff [] bs = diff
difference diff (a ∷ xs) bs = difference (bit_or diff (bit_xor a (get_or bs 0 0))) xs (drop 1 bs)

unfoldable pub constant_time_eq : List ℕ → List ℕ → Bool
unfolding difference
constant_time_eq xs ys = length xs == length ys && (difference 0 xs ys == 0)
