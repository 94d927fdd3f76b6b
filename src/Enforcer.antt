-- ===== src/Enforcer.antt =====
-- Network isolation: class `PolicyEnforcer` of enforcer/PolicyEnforcer.hpp and .cpp.
pub mod Types
pub mod Addresses
pub mod Nftables
pub mod Backends
pub mod Isolation
pub mod Processes
mod Tests
