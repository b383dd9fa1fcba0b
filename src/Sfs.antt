-- ===== src/Sfs.antt =====
-- kern/fs/sfs: block I/O with retries, block allocation, block mapping and truncation of an inode.
pub mod Io
pub mod Balloc
pub mod Bmap
pub mod Trunc
pub mod Metaio
pub mod Dir
pub mod File
