-- ===== src/Fuse.antt =====
-- pkg/fuse: the filesystem of decrypted files.
pub mod Enclave
pub mod Attr
pub mod File
pub mod Key
pub mod Inodes
pub mod Preload
pub mod Mount
