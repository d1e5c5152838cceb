-- ===== src/Img/Tests.antt =====
-- Streams that are decompressed, and the theorems at concrete streams.
use barry_os.Img.Huffman.{decode}
use barry_os.Img.Bits.{take_bits, new}
use barry_os.Img.Inflate.Total.{zlib-Bounded}
use barry_os.Img.Inflate.Stored.{inflate-store, store}
use barry_os.Img.Outcome.{stuck, err, truncated, too_large, ok}
use barry_os.Common.{List, ◌≡◌, ◌≢◌, take, ℕ, concat, ◌∷◌, [], length, replicate, ◌≤◌, refl, arith}
use barry_os.Img.Inflate.{zlib, inflate}

abbrev hi : List ℕ
hi = b'h' ∷ b'i' ∷ []

abbrev chunks : List (List ℕ)
chunks = hi ∷ (b'!' ∷ []) ∷ []

-- Two chunks, stored.
inflate_stored : inflate (store chunks) 10 ≡ ok (b'h' ∷ b'i' ∷ b'!' ∷ [])
unfolding inflate store concat take_bits new
inflate_stored = refl

-- A run of nine letters in the fixed tables, with its header.
abbrev run : List ℕ
run = 120 ∷ 218 ∷ 75 ∷ 76 ∷ 132 ∷ 2 ∷ 0 ∷ 17 ∷ 22 ∷ 3 ∷ 106 ∷ []

zlib-run : zlib run 20 ≡ ok (replicate 9 b'a')
unfolding zlib take_bits new decode
zlib-run = refl

-- A smaller limit is kept.
zlib_limited : zlib run 8 ≡ err too_large
unfolding zlib take_bits new decode
zlib_limited = refl

-- A stream that ends within its block.
zlib_cut : zlib (take 5 run) 20 ≡ err truncated
unfolding zlib take_bits new decode
zlib_cut = refl

zlib-Bounded_example :
    (zlib run 8 ≢ stuck) × ((out : List ℕ) → zlib run 8 ≡ ok out → length out ≤ 8)
zlib-Bounded_example = zlib-Bounded run 8

inflate-store_example : inflate (store chunks) 3 ≡ ok (concat chunks)
inflate-store_example =
    inflate-store chunks 3 (omega arith, (omega arith, tt)) (unfold concat in omega arith)
