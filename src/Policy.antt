-- ===== src/Policy.antt =====
-- crates/tierbuf/src/policy: the placement policies.
pub mod Floats
pub mod Economic
