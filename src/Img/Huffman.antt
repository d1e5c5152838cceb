-- ===== src/Img/Huffman.antt =====
-- kernel/src/apps/web/img/inflate.rs: canonical Huffman tables.
pub mod Total
use barry_os.Img.Outcome.{◌>>=◌, ◌>>◌, refuse, no_codes}
use barry_os.Img.Outcome.{Outcome, ok, err, no_match, assigned_twice, long_code, panic}
use barry_os.Img.Bits.{Bits, take_bits}
use barry_os.Common.{
  ℕ, List, suc, ◌∷◌, if◌then◌else◌, ◌+◌, ◌==◌, ltb, ◌*◌, set, get_or, ◌-◌, [], zero, replicate,
  bit_or, length,
}

pub record Huff : Type 0 where
  pub count : List ℕ
  pub symbol : List ℕ

-- The loop that counts the codes of each length.
unfoldable pub count_lengths : List ℕ → List ℕ → Outcome (List ℕ)
count_lengths count [] = ok count
count_lengths count (l ∷ ls) =
    let rest = count_lengths (set count l (get_or count l 0 + 1)) ls in
    if ltb 15 l then err long_code else rest

-- The loop over the lengths from `len` on; `left` is the number of codes still free.
unfoldable pub check_free : ℕ → ℕ → ℕ → List ℕ → Outcome (Unit {0})
check_free zero len left count = ok tt
check_free (suc k) len left count =
    let rest = check_free k (len + 1) (left * 2 - get_or count len 0) count in
    if ltb (left * 2) (get_or count len 0) then err assigned_twice else rest

-- Where the symbols of each length start.
unfoldable pub offsets : ℕ → ℕ → List ℕ → List ℕ → List ℕ
offsets zero len count offs = offs
offsets (suc k) len count offs =
    offsets k (len + 1) count (set offs (len + 1) (get_or offs len 0 + get_or count len 0))

-- The loop that puts symbol `s` and the following ones in their places.
unfoldable pub place_symbols : ℕ → List ℕ → List ℕ → List ℕ → List ℕ
place_symbols s [] offs symbol = symbol
place_symbols s (l ∷ ls) offs symbol =
    let used = l == 0 in
    place_symbols (s + 1) ls (if used then offs else set offs l (get_or offs l 0 + 1))
      (if used then symbol else set symbol (get_or offs l 0) s)

unfoldable pub build : List ℕ → Outcome Huff
unfolding count_lengths check_free offsets place_symbols
build lengths = do
  count ← count_lengths (replicate 16 0) lengths
  refuse (get_or count 0 0 == length lengths) no_codes
  check_free 15 1 1 count
  ok (record {
    count = count;
    symbol = place_symbols 0 lengths (offsets 14 1 count (replicate 16 0)) (replicate 288 0);
  })

-- `self.symbol[i]`
unfoldable pub symbol_at : Huff → ℕ → Outcome ℕ
symbol_at t i = if ltb i 288 then ok (get_or t.symbol i 0) else panic

-- The loop of `decode` over the lengths from `len` on. `code` is never below `first`, so that the
-- source's difference of signed numbers is one of naturals.
unfoldable pub decode_from : ℕ → ℕ → ℕ → ℕ → ℕ → Huff → Bits → Outcome (ℕ × Bits)
unfolding symbol_at
decode_from zero len code first index t b = err no_match
decode_from (suc k) len code first index t b = do
  (x, r) ← take_bits b 1
  let c = bit_or code x
  let found = symbol_at t (index + c - first) >>= λ s. ok (s, r)
  let more =
      decode_from k (len + 1) (c * 2) ((first + get_or t.count len 0) * 2)
        (index + get_or t.count len 0) t r
  if ltb c (first + get_or t.count len 0) then found else more

unfoldable pub decode : Huff → Bits → Outcome (ℕ × Bits)
unfolding decode_from
decode t b = decode_from 15 1 0 0 0 t b
