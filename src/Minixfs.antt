-- ===== src/Minixfs.antt =====
-- kernel/minixfs.c: the minix filesystem, version 1.
pub mod Disk
pub mod Bytes
pub mod Bitmap
pub mod Allocate
pub mod Types
pub mod Inode
pub mod Zone
pub mod File
pub mod Directory
pub mod Contents
pub mod Ops
pub mod Record
pub mod Table
pub mod NewZone
pub mod Taken
pub mod Assign
pub mod Cache
pub mod Ram
mod Examples
