-- ===== src/Mesh/Histories.antt =====
-- The handlers of consensus/MeshNode.cpp as histories of calls of the consensus and of the peer manager.
pub mod Votes
pub mod Packets
pub mod Discovery
pub mod Events
pub mod Invariants
pub mod Voters
