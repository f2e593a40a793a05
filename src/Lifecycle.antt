-- ===== src/Lifecycle.antt =====
-- The end of a Den: the tombstone that is left of it, crates/werewolf-core/src/tombstone.rs.
pub mod Tombstone
pub mod Consistent
