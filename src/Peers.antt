-- ===== src/Peers.antt =====
-- The peer manager: class `PeerManager` of consensus/PeerManager.hpp and consensus/PeerManager.cpp.
pub mod Types
pub mod Registry
pub mod Trust
pub mod Rates
pub mod Calls
pub mod Keys
pub mod Kept
pub mod Bounds
pub mod TwoKeys
mod Tests
