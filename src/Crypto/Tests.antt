-- ===== src/Crypto/Tests.antt =====
-- The theorems on the reader and on the limbs at concrete inputs.
use barry_os.Crypto.Hmac.Rfc2104.{rfc2104, hmac_parts-rfc2104}
use barry_os.Crypto.Sha256.Message.{update_all, sha256, finish-update_all}
use barry_os.Crypto.Hmac.{hmac_parts, hmac, block_key}
use barry_os.Common.{
  List, ◌∷◌, ◌≡◌, if◌then◌else◌, ℕ, [], ltb, ◌-◌, arith, ◌+◌, All, length, refl, concat, replicate,
  write_at,
}
use barry_os.Common.Words.{u64_mod}
use barry_os.Crypto.Der.{read}
use barry_os.Crypto.Sha256.{new, finish, hash, update, compress}
use barry_os.Crypto.Der.Read.{IsRead, read-IsRead}
use barry_os.Crypto.Bignum.{add_mod}
use barry_os.Crypto.Bignum.Values.{value, IsLimb}
use barry_os.Crypto.Bignum.Modular.{add_mod_lem}

read-IsRead_example : IsRead (2 ∷ 1 ∷ 5 ∷ 9 ∷ []) (read (2 ∷ 1 ∷ 5 ∷ 9 ∷ []))
read-IsRead_example = read-IsRead (2 ∷ 1 ∷ 5 ∷ 9 ∷ [])

-- Two limbs of the largest value are the modulus; the sum of two numbers below it wraps around.
abbrev big : List ℕ
big = (u64_mod - 1) ∷ (u64_mod - 1) ∷ []

abbrev most : List ℕ
most = (u64_mod - 2) ∷ (u64_mod - 1) ∷ []

add_mod_lem_example :
    (value (add_mod most most big) ≡ (
      if ltb (value most + value most) (value big)
      then value most + value most
      else value most + value most - value big))
    × All IsLimb (add_mod most most big)
    × (length (add_mod most most big) ≡ length big)
add_mod_lem_example =
    add_mod_lem most most big refl refl (omega arith, (omega arith, tt))
      (omega arith, (omega arith, tt)) (omega arith, (omega arith, tt)) (omega arith) (omega arith)

abbrev abc : List ℕ
abc = b'a' ∷ b'b' ∷ b'c' ∷ []

-- The vector of FIPS 180-4 for "abc".
hash-abc :
    hash abc
    ≡ 0xba ∷ 0x78 ∷ 0x16 ∷ 0xbf ∷ 0x8f ∷ 0x01 ∷ 0xcf ∷ 0xea ∷ 0x41 ∷ 0x41 ∷ 0x40 ∷ 0xde ∷ 0x5d
      ∷ 0xae ∷ 0x22 ∷ 0x23 ∷ 0xb0 ∷ 0x03 ∷ 0x61 ∷ 0xa3 ∷ 0x96 ∷ 0x17 ∷ 0x7a ∷ 0x9c ∷ 0xb4 ∷ 0x10
      ∷ 0xff ∷ 0x61 ∷ 0xf2 ∷ 0x00 ∷ 0x15 ∷ 0xad ∷ []
unfolding hash write_at compress
hash-abc = refl

abbrev hi_there : List ℕ
hi_there = b'H' ∷ b'i' ∷ b' ' ∷ b'T' ∷ b'h' ∷ b'e' ∷ b'r' ∷ b'e' ∷ []

-- The first test case of RFC 4231.
hmac_rfc4231 :
    hmac (replicate 20 0x0b) hi_there
    ≡ 0xb0 ∷ 0x34 ∷ 0x4c ∷ 0x61 ∷ 0xd8 ∷ 0xdb ∷ 0x38 ∷ 0x53 ∷ 0x5c ∷ 0xa8 ∷ 0xaf ∷ 0xce ∷ 0xaf
      ∷ 0x0b ∷ 0xf1 ∷ 0x2b ∷ 0x88 ∷ 0x1d ∷ 0xc2 ∷ 0x00 ∷ 0xc9 ∷ 0x83 ∷ 0x3d ∷ 0xa7 ∷ 0x26 ∷ 0xe9
      ∷ 0x37 ∷ 0x6c ∷ 0x2e ∷ 0x32 ∷ 0xcf ∷ 0xf7 ∷ []
unfolding hmac update finish block_key write_at compress
hmac_rfc4231 = refl

finish-update_all_example :
    finish (update_all new (abc ∷ abc ∷ [])) ≡ sha256 (concat (abc ∷ abc ∷ []))
finish-update_all_example = finish-update_all (abc ∷ abc ∷ [])

hmac_parts-rfc2104_example :
    hmac_parts abc (abc ∷ hi_there ∷ []) ≡ rfc2104 abc (concat (abc ∷ hi_there ∷ []))
hmac_parts-rfc2104_example = hmac_parts-rfc2104 abc (abc ∷ hi_there ∷ [])
