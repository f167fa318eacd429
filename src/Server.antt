-- ===== src/Server.antt =====
-- The community server: crates/rekindle-server/src.
pub mod State
pub mod Protocol
pub mod Store
pub mod Core
pub mod Guards
pub mod Effects
pub mod Keys
pub mod Join
pub mod Departure
pub mod Messages
pub mod Channels
pub mod Roles
pub mod Timeouts
pub mod Dispatch
pub mod Hosting
pub mod Loading
pub mod Hosted
pub mod Routes
pub mod Entry
pub mod Ipc
pub mod Authority
pub mod Invariant
pub mod Security
pub mod Tests
