-- ===== src/Fangs.antt =====
-- The registry of the node's Fangs and the tasks behind them: crates/werewolfd/src/fang_registry.rs.
pub mod Tasks
pub mod Registry
pub mod Termination
pub mod Closing
pub mod Detaching
