-- ===== src/Admission.antt =====
-- The bounded admission of connections and of work: crates/werewolfd/src/admission.rs.
pub mod Permits
pub mod Balance
pub mod Numbers
pub mod Calls
pub mod Drops
pub mod Bounded
pub mod QuicReplay
