-- ===== src/Net/Tcp.antt =====
-- kernel/src/net/tcp.rs: the connection, by what its parts do.
pub mod Ring
pub mod Stream
pub mod Append
pub mod Refine
pub mod Block
pub mod Input
pub mod Timer
pub mod Order
pub mod GiveUp
pub mod Keeps
pub mod Reached
mod Tests
pub mod Queue
