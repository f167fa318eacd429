-- ===== src/Server/Tests.antt =====
-- A small server, requests on it, and the theorems at it.
pub mod Town
mod Examples
mod Security
mod Lasting
mod Entry
mod Hosting
mod Daemon
