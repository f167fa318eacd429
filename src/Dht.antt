-- ===== src/Dht.antt =====
-- Records in the distributed hash table: crates/rekindle-protocol/src/dht.
pub mod Network
pub mod ShortArray
pub mod Log
pub mod Tests
