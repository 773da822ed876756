-- ===== src/Tool.antt =====
-- tools/verify_attestation.py: the verification engine that the node and the command line share.
pub mod Proof
pub mod Signature
pub mod Commands
pub mod Main
