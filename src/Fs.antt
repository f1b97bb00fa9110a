-- ===== src/Fs.antt =====
-- The file systems and file formats of kernel/fs.
pub mod Elf
pub mod Inode
pub mod Fat
pub mod Vfs
pub mod Types
