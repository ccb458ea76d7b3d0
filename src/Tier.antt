-- ===== src/Tier.antt =====
-- crates/tierbuf/src/tier: the storage tiers.
pub mod Budget
pub mod Disk
pub mod File
pub mod Mock
