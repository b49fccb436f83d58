-- ===== src/Chord.antt =====
-- chord/: the node of the ring.
pub mod NodeState
pub mod Node
pub mod Routing
