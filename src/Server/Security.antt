-- ===== src/Server/Security.antt =====
-- What the community server keeps safe, and where it does not.
pub mod Outsiders
pub mod Removal
pub mod Records
pub mod Admitted
pub mod Bans
pub mod Persistence
pub mod Escalation
pub mod Silence
pub mod Timeouts
