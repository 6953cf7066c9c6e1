-- ===== src/Vfs.antt =====
-- kernel/vfs.c, include/vfs.h: paths, mounts, open files and descriptors, over filesystems that are
-- reached only through their tables of operations.
pub mod Types
pub mod Resolve
pub mod Create
pub mod Descriptors
pub mod Calls
pub mod Seek
pub mod Components
pub mod Descend
pub mod Follow
pub mod Open
pub mod Keep
pub mod Close
pub mod Leak
pub mod Offsets
pub mod Transfer
pub mod Pieces
pub mod Mounts
pub mod OnTop
pub mod Split
mod Examples
