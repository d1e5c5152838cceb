-- ===== src/Fs.antt =====
-- The file system: kernel/src/fs (vfs.rs, ramfs.rs, perm.rs).
pub mod Vnodes
pub mod Vfs
pub mod Paths
pub mod RamFs
pub mod File
pub mod Perm
mod Tests
