-- ===== src/Mesh.antt =====
-- The mesh node: class `MeshNode` of consensus/MeshNode.hpp and consensus/MeshNode.cpp.
pub mod Types
pub mod Wire
pub mod Consensus
pub mod Vote
pub mod Announce
pub mod Message
pub mod Pex
pub mod Beacon
pub mod Gossip
pub mod Upkeep
pub mod Start
pub mod Histories
pub mod Responses
mod Tests
