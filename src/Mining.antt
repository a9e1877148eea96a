-- ===== src/Mining.antt =====
-- The mining work of main/mining.c.
pub mod Job
pub mod Coinbase
pub mod Header
pub mod Extranonce
mod Examples
