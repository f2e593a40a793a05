-- ===== src/Handshake.antt =====
-- The v3 handshake of crates/werewolfd/src/handshake.rs and handshake/rpc.rs, with the identities of
-- crates/werewolf-core/src/pelt.rs. A `&str` is the list of its UTF-8 bytes.
pub mod Codes
pub mod Canonical
pub mod Fingerprints
pub mod Transcript
pub mod Pelt
pub mod Messages
pub mod Binding
pub mod Rpc
pub mod Requests
pub mod Chains
pub mod Purposes
pub mod Challenge
