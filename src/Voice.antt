-- ===== src/Voice.antt =====
-- Voice: crates/rekindle-voice/src.
pub mod Jitter
