-- ===== src/Asic.antt =====
-- The BM1370 ASIC and its serial link: main/asic_crc.c, main/bitmain_asic.c and main/bm1370.c.
pub mod Crc
pub mod Powers
pub mod Link
pub mod Bm1370
mod Examples
