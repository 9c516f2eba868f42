-- ===== src/Fs.antt =====
-- File systems and the objects behind file descriptors.
pub mod Disk
pub mod Fat
pub mod Pipe
pub mod Inodes
