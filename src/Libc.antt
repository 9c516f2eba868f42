-- ===== src/Libc.antt =====
-- The C library, libc/src.
pub mod Strings
pub mod Utf8
pub mod Numbers
pub mod Qsort
