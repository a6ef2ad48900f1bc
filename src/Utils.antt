-- ===== src/Utils.antt =====
-- utils.c
pub mod Checksum
pub mod Files
pub mod Hexdump
pub mod Strip
