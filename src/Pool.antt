-- ===== src/Pool.antt =====
-- The token pool of internal/pool.
pub mod Gate
pub mod Quota
pub mod Scarce
pub mod Spend
pub mod Usage
pub mod Unfit
pub mod Order
pub mod Buckets
pub mod Refusals
pub mod Failover
pub mod Bridge
mod Tests
