-- ===== src/Str.antt =====
-- lib/string.c, by groups of its routines.
pub mod Scan
pub mod Compare
pub mod Copy
pub mod Block
pub mod Number
