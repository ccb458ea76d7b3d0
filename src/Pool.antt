-- ===== src/Pool.antt =====
-- crates/tierbuf/src/pool.rs: the buffer manager.
pub mod Backend
pub mod Eviction
pub mod DemandFault
pub mod Handles
pub mod Checkout
pub mod Fix
pub mod Prefetch
pub mod Cooler
pub mod Allocate
pub mod Background
pub mod Reclaim
mod Memory
mod Tests
