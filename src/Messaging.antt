-- ===== src/Messaging.antt =====
-- Messages between peers: crates/rekindle-protocol/src/messaging.
pub mod Envelope
