-- ===== src/Governance.antt =====
-- crates/werewolf-core/src/governance.rs: signed governance statements and the chain of them.
-- Types: the data; Encoding: the canonical bytes and the strict reader; Rules: what a statement
-- must satisfy; Chain: `apply`; HeadCheck: the check of crates/werewolfd/src/governance.rs.
pub mod Types
pub mod Encoding
pub mod Writing
pub mod Reading
pub mod BodyReading
pub mod BodyWriting
pub mod RoundTrip
pub mod Canonical
pub mod Rules
pub mod Chain
pub mod HeadCheck
pub mod WellFormed
pub mod Effects
pub mod Steps
pub mod Epochs
pub mod Preservation
pub mod Genesis
pub mod Invariant
pub mod Authority
pub mod History
pub mod Members
pub mod Replay
pub mod NoPanic
pub mod Total
pub mod KeyCheck
pub mod Custody
