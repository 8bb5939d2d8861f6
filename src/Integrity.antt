-- ===== src/Integrity.antt =====
-- conformance/src/integrity: tamper evidence.
pub mod Types
pub mod Hex
pub mod Base64
pub mod Merkle
pub mod Canonicalize
pub mod Digest
pub mod Signature
pub mod Findings
pub mod Event
pub mod Chain
pub mod Checkpoint
pub mod Proof
