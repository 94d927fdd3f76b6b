-- ===== src/Pbft.antt =====
-- The consensus state machine: class `PBFTConsensus` of consensus/PBFT.hpp.
pub mod Types
pub mod Settings
pub mod Registry
pub mod Trust
pub mod Verify
pub mod Advance
pub mod Vote
pub mod Calls
pub mod Limits
pub mod Quorum
pub mod Tests
