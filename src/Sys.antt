-- ===== src/Sys.antt =====
-- crates/tierbuf/src/sys: what the library asks of the operating system.
pub mod Mapping
