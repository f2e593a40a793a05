-- ===== src/Overlay.antt =====
-- The peer overlay of crates/werewolf-core/src: node ids and their distance (nodeid.rs), buckets
-- (kbucket.rs), the routing table (routing.rs), lookups (lookup.rs, find_node.rs, message.rs) and the
-- peer store (peer_store.rs).
pub mod NodeId
pub mod HexText
pub mod Bucket
pub mod Routing
