-- ===== src/Tests.antt =====
-- Concrete runs of the models, and inputs at which the theorems' conditions hold.
pub mod Network
pub mod SmallBytes
pub mod Governance
pub mod Encoding
pub mod Overlay
pub mod Naming
pub mod Handshake
pub mod Admission
pub mod Targets
pub mod KeyCheck
pub mod Fangs
pub mod Lifecycle
