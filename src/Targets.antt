-- ===== src/Targets.antt =====
-- Which targets a peer may reach through the node: crates/werewolfd/src/target_policy.rs.
pub mod Endpoints
pub mod Policy
pub mod Grants
pub mod Authorize
