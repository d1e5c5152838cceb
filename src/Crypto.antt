-- ===== src/Crypto.antt =====
-- Parsing, arithmetic and hashing under TLS: kernel/src/crypto (der.rs, bignum.rs, hmac.rs) and
-- kernel/src/sha256.rs.
pub mod Der
pub mod Bignum
pub mod Sha256
pub mod Hmac
mod Tests
