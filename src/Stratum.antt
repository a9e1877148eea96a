-- ===== src/Stratum.antt =====
-- The Stratum client, main/stratum_minimal.c.
mod Examples
pub mod Scheduler
pub mod Text
pub mod Json
pub mod Span
pub mod Hexes
pub mod Notify
pub mod Lines
pub mod Requests
pub mod Blocks
pub mod Pools
pub mod Results
pub mod Work
pub mod Dispatch
pub mod Events
