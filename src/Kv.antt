-- ===== src/Kv.antt =====
-- kv/: the stores that keep a node's share of the keys.
pub mod Lease
pub mod Spec
pub mod Memory
pub mod Sqlite
pub mod Aof
