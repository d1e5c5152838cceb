-- ===== src/Img/Inflate.antt =====
-- kernel/src/apps/web/img/inflate.rs: the blocks of DEFLATE and the zlib wrapper. The output is the
-- list of its bytes.
pub mod Described
pub mod Bounds
pub mod Total
pub mod Stored
use barry_os.Common.Words.{u16_mod}
use barry_os.Img.Huffman.{build, Huff, decode}
use barry_os.Common.{
  ℕ, List, ◌∷◌, length, suc, bit_or, Bool, ◌+◌, if◌then◌else◌, take, get_or, replicate, ◌-◌, true,
  [], ◌*◌, ◌++◌, drop, leb, set, ltb, ◌==◌, ◌^◌, ◌&&◌, zero, not, bit_xor, bit_and, ◌%◌,
}
use barry_os.Img.Bits.{align, bits_left, Bits, new, take_bits}
use barry_os.Img.Outcome.{
  ◌>>=◌, ◌>>◌, Outcome, ok, refuse, stuck, panic, no_length, nothing_to_repeat, no_header,
  run_off_end, err, not_a_length, not_a_distance, not_a_length_code, undefined_type, too_large,
  before_start, not_complement, not_deflate, past_end, bad_check, preset_dictionary,
}

abbrev pub len_base : List ℕ
len_base =
    3 ∷ 4 ∷ 5 ∷ 6 ∷ 7 ∷ 8 ∷ 9 ∷ 10 ∷ 11 ∷ 13 ∷ 15 ∷ 17 ∷ 19 ∷ 23 ∷ 27 ∷ 31 ∷ 35 ∷ 43 ∷ 51 ∷ 59 ∷ 67
    ∷ 83 ∷ 99 ∷ 115 ∷ 131 ∷ 163 ∷ 195 ∷ 227 ∷ 258 ∷ []

abbrev pub len_extra : List ℕ
len_extra =
    0 ∷ 0 ∷ 0 ∷ 0 ∷ 0 ∷ 0 ∷ 0 ∷ 0 ∷ 1 ∷ 1 ∷ 1 ∷ 1 ∷ 2 ∷ 2 ∷ 2 ∷ 2 ∷ 3 ∷ 3 ∷ 3 ∷ 3 ∷ 4 ∷ 4 ∷ 4 ∷ 4
    ∷ 5 ∷ 5 ∷ 5 ∷ 5 ∷ 0 ∷ []

abbrev pub dist_base : List ℕ
dist_base =
    1 ∷ 2 ∷ 3 ∷ 4 ∷ 5 ∷ 7 ∷ 9 ∷ 13 ∷ 17 ∷ 25 ∷ 33 ∷ 49 ∷ 65 ∷ 97 ∷ 129 ∷ 193 ∷ 257 ∷ 385 ∷ 513 ∷ 769
    ∷ 1025 ∷ 1537 ∷ 2049 ∷ 3073 ∷ 4097 ∷ 6145 ∷ 8193 ∷ 12289 ∷ 16385 ∷ 24577 ∷ []

abbrev pub dist_extra : List ℕ
dist_extra =
    0 ∷ 0 ∷ 0 ∷ 0 ∷ 1 ∷ 1 ∷ 2 ∷ 2 ∷ 3 ∷ 3 ∷ 4 ∷ 4 ∷ 5 ∷ 5 ∷ 6 ∷ 6 ∷ 7 ∷ 7 ∷ 8 ∷ 8 ∷ 9 ∷ 9 ∷ 10 ∷ 10
    ∷ 11 ∷ 11 ∷ 12 ∷ 12 ∷ 13 ∷ 13 ∷ []

abbrev pub clen_order : List ℕ
clen_order = 16 ∷ 17 ∷ 18 ∷ 0 ∷ 8 ∷ 7 ∷ 9 ∷ 6 ∷ 10 ∷ 5 ∷ 11 ∷ 4 ∷ 12 ∷ 3 ∷ 13 ∷ 2 ∷ 14 ∷ 1 ∷ 15 ∷ []

-- The two bytes at `i`, the lower first.
unfoldable pub le16 : List ℕ → ℕ → ℕ
le16 src i = bit_or (get_or src i 0) (get_or src (i + 1) 0 * 2 ^ 8)

unfoldable pub stored : Bits → List ℕ → ℕ → Outcome (List ℕ × Bits)
unfolding le16 align
stored bits out limit = do
  let b = align bits
  refuse (ltb (length b.src) (b.at + 4)) no_length
  refuse (not (bit_xor (le16 b.src b.at) 0xffff == le16 b.src (b.at + 2))) not_complement
  refuse (ltb (length b.src) (b.at + 4 + le16 b.src b.at)) past_end
  refuse (ltb limit (length out + le16 b.src b.at)) too_large
  ok (
    out ++ take (le16 b.src b.at) (drop (b.at + 4) b.src),
    record b { at = b.at + 4 + le16 b.src b.at },
  )

-- The tables that need no declaration. Their lengths are built without an error, so the source's
-- default is not reached.
unfoldable pub fixed_literal : Outcome Huff
unfolding build
fixed_literal = build (replicate 144 8 ++ (replicate 112 9 ++ (replicate 24 7 ++ replicate 8 8)))

unfoldable pub fixed_distance : Outcome Huff
unfolding build
fixed_distance = build (replicate 30 5)

-- The loop over the lengths of the code-length code, from the `i`-th on.
unfoldable pub read_clen : ℕ → ℕ → Bits → List ℕ → Outcome (List ℕ × Bits)
read_clen zero i b clen = ok (clen, b)
read_clen (suc k) i b clen = do
  (v, r) ← take_bits b 3
  read_clen k (i + 1) r (set clen (get_or clen_order i 0) v)

-- `lengths[i] = v`, in the array of 318.
unfoldable pub put_length : List ℕ → ℕ → ℕ → Outcome (List ℕ)
put_length lengths i v = if ltb i 318 then ok (set lengths i v) else panic

-- A run of `k` equal lengths from `i` on.
unfoldable pub put_run : ℕ → ℕ → ℕ → ℕ → List ℕ → Outcome (ℕ × List ℕ)
unfolding put_length
put_run zero i total v lengths = ok (i, lengths)
put_run (suc k) i total v lengths = do
  refuse (leb total i) run_off_end
  l ← put_length lengths i v
  put_run k (i + 1) total v l

-- A run whose length is read from the bits.
unfoldable pub put_read_run : ℕ → ℕ → Bits → ℕ → ℕ → ℕ → List ℕ → Outcome ((ℕ × List ℕ) × Bits)
unfolding put_run
put_read_run base bits b i total v lengths = do
  (x, r) ← take_bits b bits
  y ← put_run (base + x) i total v lengths
  ok (y, r)

unfoldable pub put_single : ℕ → Bits → ℕ → List ℕ → Outcome ((ℕ × List ℕ) × Bits)
unfolding put_length
put_single sym b i lengths = do l ← put_length lengths i sym; ok ((i + 1, l), b)

-- One symbol of the code-length code.
unfoldable pub put_symbol : ℕ → Bits → ℕ → ℕ → List ℕ → Outcome ((ℕ × List ℕ) × Bits)
unfolding put_read_run put_single
put_symbol sym b i total lengths =
    if ltb sym 16
    then put_single sym b i lengths
    else if sym == 16
    then (refuse (i == 0) nothing_to_repeat
        >> put_read_run 3 2 b i total (get_or lengths (i - 1) 0) lengths)
    else if sym == 17
    then put_read_run 3 3 b i total 0 lengths
    else if sym == 18
    then put_read_run 11 7 b i total 0 lengths
    else err not_a_length_code

-- The loop over the lengths of both tables; each round sets one at least, so `total` rounds are
-- enough.
unfoldable pub read_lengths : ℕ → Huff → Bits → ℕ → ℕ → List ℕ → Outcome (List ℕ × Bits)
unfolding put_symbol
read_lengths zero t b i total lengths = if ltb i total then stuck else ok (lengths, b)
read_lengths (suc fuel) t b i total lengths =
    let round = do
      (sym, r) ← decode t b
      (set_to, q) ← put_symbol sym r i total lengths
      read_lengths fuel t q set_to.0 total set_to.1
    in if ltb i total then round else ok (lengths, b)

unfoldable pub all_zero : List ℕ → Bool
all_zero [] = true
all_zero (l ∷ ls) = l == 0 && all_zero ls

-- The two tables of `hlit` and `hdist` lengths.
unfoldable pub build_both : List ℕ → ℕ → ℕ → Outcome (Huff × Huff)
unfolding build all_zero
build_both lengths hlit hdist = do
  lit ← build (take hlit lengths)
  let dist_lengths = take hdist (drop hlit lengths)
  dist ← (if all_zero dist_lengths then build (set (replicate 30 0) 0 1) else build dist_lengths)
  ok (lit, dist)

unfoldable pub dynamic : Bits → Outcome ((Huff × Huff) × Bits)
unfolding read_clen read_lengths build_both
dynamic b = do
  (x, r) ← take_bits b 5
  (y, s) ← take_bits r 5
  (z, u) ← take_bits s 4
  (clen, v) ← read_clen (z + 4) 0 u (replicate 19 0)
  t ← build clen
  (lengths, w) ← read_lengths (x + 257 + (y + 1)) t v 0 (x + 257 + (y + 1)) (replicate 318 0)
  tables ← build_both lengths (x + 257) (y + 1)
  ok (tables, w)

-- The loop that copies byte by byte from what was written.
unfoldable pub copy_back : ℕ → ℕ → List ℕ → List ℕ
copy_back zero from out = out
copy_back (suc k) from out = copy_back k (from + 1) (out ++ get_or out from 0 ∷ [])

-- A length symbol with its distance.
unfoldable pub copy_match : ℕ → Bits → List ℕ → Huff → ℕ → Outcome (List ℕ × Bits)
unfolding copy_back
copy_match li b out dist limit = do
  refuse (leb 29 li) not_a_length
  (x, r) ← take_bits b (get_or len_extra li 0)
  (dsym, s) ← decode dist r
  refuse (leb 30 dsym) not_a_distance
  (y, u) ← take_bits s (get_or dist_extra dsym 0)
  refuse (ltb (length out) (get_or dist_base dsym 0 + y)) before_start
  refuse (ltb limit (length out + (get_or len_base li 0 + x))) too_large
  ok (copy_back (get_or len_base li 0 + x) (length out - (get_or dist_base dsym 0 + y)) out, u)

unfoldable pub one_code : ℕ → Bits → List ℕ → Huff → ℕ → Outcome (List ℕ × Bits)
unfolding copy_match
one_code sym b out dist limit =
    if ltb sym 256
    then (if leb limit (length out) then err too_large else ok (out ++ sym ∷ [], b))
    else copy_match (sym - 257) b out dist limit

-- The main loop; each round takes a bit, so more rounds than bits are enough.
unfoldable pub codes : ℕ → Bits → List ℕ → Huff → Huff → ℕ → Outcome (List ℕ × Bits)
unfolding one_code
codes zero b out lit dist limit = stuck
codes (suc fuel) b out lit dist limit = do
  (sym, r) ← decode lit b
  let next = do (out', s) ← one_code sym r out dist limit; codes fuel s out' lit dist limit
  if sym == 256 then ok (out, r) else next

-- One block, after its type.
unfoldable pub block : ℕ → Bits → List ℕ → ℕ → Outcome (List ℕ × Bits)
unfolding stored fixed_literal fixed_distance dynamic codes bits_left
block kind b out limit =
    let fixed = do
      lit ← fixed_literal
      dist ← fixed_distance
      codes (suc (bits_left b)) b out lit dist limit
    in let described = do
      (tables, r) ← dynamic b
      codes (suc (bits_left b)) r out tables.0 tables.1 limit
      in if kind == 0
        then stored b out limit
        else if kind == 1
        then fixed
        else if kind == 2
        then described
        else err undefined_type

-- The loop over the blocks; each takes three bits at least.
unfoldable pub blocks : ℕ → Bits → List ℕ → ℕ → Outcome (List ℕ)
blocks zero b out limit = stuck
blocks (suc fuel) b out limit = do
  (last, r) ← take_bits b 1
  (kind, s) ← take_bits r 2
  (out', u) ← block kind s out limit
  let rest = blocks fuel u out' limit
  if last == 1 then ok out' else rest

unfoldable pub inflate : List ℕ → ℕ → Outcome (List ℕ)
unfolding blocks block bits_left
inflate src limit = blocks (suc (bits_left (new src))) (new src) [] limit

unfoldable pub zlib : List ℕ → ℕ → Outcome (List ℕ)
unfolding inflate
zlib src limit =
    let cmf = get_or src 0 0 in
    let flg = get_or src 1 0 in
    do
      refuse (ltb (length src) 2) no_header
      refuse (not (bit_and cmf 0x0f == 8)) not_deflate
      refuse (not ((cmf * 256 + flg) % u16_mod % 31 == 0)) bad_check
      refuse (not (bit_and flg 0x20 == 0)) preset_dictionary
      inflate (drop 2 src) limit
