-- ===== src/Img.antt =====
-- The decompressor of the browser's pictures: kernel/src/apps/web/img/inflate.rs.
pub mod Outcome
pub mod Bits
pub mod Huffman
pub mod Inflate
mod Tests
