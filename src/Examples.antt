-- ===== src/Examples.antt =====
-- Concrete stores, nodes and rings on which the theorems are applied.
mod Store
mod Network
mod Circle
mod Sqlite
mod Log
mod Config
mod Encoding
mod Tunnels
mod Grants
