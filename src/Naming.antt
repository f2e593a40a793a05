-- ===== src/Naming.antt =====
-- What an operator names: text and its rules, routes through a relay, services, and published
-- services (crates/werewolf-core/src/route.rs, service.rs and published.rs).
pub mod Text
pub mod Route
pub mod Different
pub mod Service
pub mod ServiceCheck
pub mod Published
