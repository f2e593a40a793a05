-- ===== src/Lib.antt =====
-- A model of the WerewolfProxy node: the governance chain of its network, the Kademlia overlay, the
-- routes and services that an operator names, the signed handshake between two nodes, the admission
-- of their work, the policy of targets, the registry of the tunnels (Fangs) that are open, and the
-- tombstone that a destroyed node leaves.
--
-- The parts and their files
--
-- Governance, of crates/werewolf-core/src/governance.rs and crates/werewolfd/src/governance.rs. A
-- network's ten keys sign statements (`Statement`, `Core`, `Body`), each with a sequence and the hash
-- of the one before. A node folds them into a `Head`; the daemon writes a head only when `check`
-- accepts it, and derives from it which Pack members it excludes and whether it is itself admitted.
--   * Governance/Types: the constants, `Body`, `Core`, `Statement`, `GovError`, `Head`, `Outcome`.
--     A `u8`, `u64` or `usize` is a number of ℕ, an array or a `Vec<u8>` a list of numbers. `Failure`
--     is an error of the code, or a panic (`[]` out of range, `expect`), which the code has no value for.
--   * Governance/Encoding: `Body::encode`, `Core::encode`, `Statement::encode`, `signing_input`,
--     `hash`, and the strict `decode` on a reader that passes on what is left.
--   * Governance/Rules: `strong_key`, `check_genesis`, `rotated`, `check_admission`,
--     `check_revocation`, `check_signatures`.
--   * Governance/Chain: `Head::admits`, `keys`, `keys_before`, and `apply`. Its arm without a head is
--     `apply_first`; its arm with one is `apply_next`, which calls `on_dead`, `on_recorded` and
--     `extend` for the tails of the early returns. `head.sequence + 1` wraps as in a release build.
--   * Governance/HeadCheck: `check`, `excludes` and `unadmitted` of the daemon.
--   * Governance/Effects, Steps, Genesis: what an accepted statement comes to. Governance/WellFormed,
--     Epochs, Preservation, Invariant: the invariant of a head. Governance/Authority, History, Members,
--     Replay, NoPanic, Total: who can change the chain, what lasts, and that nothing panics.
--     Governance/Writing, BodyWriting, RoundTrip: what is written is read; Governance/Reading,
--     BodyReading, Canonical: what is read is what was written.
--   * Governance/KeyCheck: the key check of crates/werewolf-core/src/governance/check.rs (`Challenge`,
--     `Answer`, `Challenge::verify`); Governance/Custody: what it establishes.
--
-- Overlay, of crates/werewolf-core/src: nodeid.rs (Overlay/NodeId, and Overlay/HexText on
-- `from_hex`), peer.rs and kbucket.rs (Overlay/Bucket), routing.rs, lookup.rs, message.rs,
-- find_node.rs and peer_store.rs (Overlay/Routing). A table has 256 buckets of at most 20 peers; a
-- peer stands in the bucket of the first bit in which its id differs from the local one. `&mut self`
-- methods return the new state with their result. The `f64` fields of a peer are of a parameter
-- type, since none of these parts reads them. `add_peer` and `remove_peer` return `none` where the
-- code would index out of range.
--
-- Naming, of crates/werewolf-core/src: route.rs (Naming/Route), service.rs (Naming/Service,
-- Naming/Different, Naming/ServiceCheck) and published.rs (Naming/Published: `check`,
-- `validate_published`), on strings as lists of code points (Naming/Text: `len`, `trim`,
-- `is_whitespace`, `is_control`).
--
-- Handshake, of crates/werewolfd/src/handshake.rs, handshake/rpc.rs and crates/werewolf-core/src/pelt.rs.
-- A node opens a stream or makes an RPC with a signed message; what a signature covers is a
-- transcript of length-prefixed fields under a domain of its purpose. A text is its UTF-8 bytes, a
-- random value and the time are arguments, and an error is `rejected`, as in the code.
--   * Handshake/Codes: `hex`, `unhex`, `fingerprint`, `remote`, `hexish`; Handshake/Pelt: identities,
--     `sign`, `verify`, `binary`, `public_matches`; Handshake/Transcript: `transcript`.
--   * Handshake/Messages: the challenge, the OPEN and ACK messages of TCP and QUIC, and the making of
--     each; Handshake/Challenge: `TcpChallengeContext`; Handshake/Rpc, with Rpc/Request and
--     Rpc/Statements: requests, results and the statements that a result carries.
--   * Handshake/Canonical, Fingerprints, Binding, Requests, Chains, Purposes: the theorems.
--
-- Admission, of crates/werewolfd/src/admission.rs, which takes work after the handshake.
--   * Admission/Permits: `Admission`, `HandshakePermit`, `TargetWorkPermit` and their drops, a
--     semaphore being its available permits; Admission/QuicReplay: `QuicReplayV3`.
--   * Admission/Balance: the permits that are held beside the state, and one step of the two as an
--     indexed type; Admission/Numbers, Calls, Drops, Bounded: the balance through every step.
--
-- Targets, of crates/werewolfd/src/target_policy.rs, which decides over the target of an OPEN.
--   * Targets/Endpoints: `SocketAddr` with its derived order, the sets of it, `supported_endpoint`;
--     Targets/Policy: `policy_from_file`, `allow_exact`, `remove_exact`, `authorize_with_resolver`;
--     Targets/Grants, Authorize: the theorems.
--
-- Fangs, of crates/werewolfd/src/fang_registry.rs and crates/werewolf-core/src/fang.rs.
--   * Fangs/Tasks: `ChildTasks` and `FangCancellation`, as a world of trackers that handles name, since
--     a tracker is shared between the registry and a listener; Fangs/Registry: `FangRegistry` and
--     `FangTermination`; Fangs/Termination, Closing, Detaching: the theorems.
--
-- Lifecycle, of crates/werewolf-core/src/tombstone.rs: Lifecycle/Tombstone has `death`, `retirement`,
-- `document`, `encode` and `parse`; Lifecycle/Consistent the theorems on what `parse` accepts.
--
-- Shared holds the numbers' Boolean tests, lists, results with `ensure` for an early return, byte
-- strings in Rust's order, and `binary_search` on increasing lists. Tests holds concrete runs.
--
-- Bounds and termination. Every function is structurally recursive, so there is no fuel. What the Rust
-- types say of sizes stands as a condition where it is needed: `FitsMemory` (a sequence is a `u64`, a
-- `Vec` is shorter than 2 ^ 64) and `IsTyped` (the sequence of a statement is a `u64`, its ids, keys
-- and signatures are arrays of 32 and 64 bytes). `CountFits` is a condition that no Rust type gives: the
-- number of entries of a genesis or a rotation, which is written as one byte, is below 256.
--
-- Parameters. `Crypto` stands for ed25519-dalek (`VerifyingKey::from_bytes`, `is_weak`,
-- `verify_strict`) and for BLAKE3; no property of them is assumed. `public_key` is the base64 decoder,
-- `Sockets` the address type of the standard library. `Primitives` stands for base64, the signatures
-- of ed25519-dalek and BLAKE3 as the handshake calls them; the parser of a socket address and the
-- resolver of names are arguments of `authorize_with_resolver`; `Formats` stands for serde_json and
-- base64 in a tombstone. No property of any is assumed, but that serde_json reads back the document
-- that it wrote and base64 decodes what it encoded, where a theorem on tombstones says so.
--
-- Not modelled: the files and documents (serde), sockets, TLS, QUIC and terminals; the daemon's
-- control requests, discovery, relay, failover and transport; of the handshake the readers of lines,
-- the results that a node signs, and the contact records and services that a result carries; of the
-- target policy its canonical document and its display; of the registry the passing over all tasks
-- (`finished_ids`, `abort_all`) and the channel that activates a listener; the encoding of a
-- published service; contacts; the local file system; signing by the governance keys.
pub mod Shared
pub mod Governance
pub mod Overlay
pub mod Naming
pub mod Handshake
pub mod Admission
pub mod Targets
pub mod Fangs
pub mod Lifecycle
pub mod Tests
