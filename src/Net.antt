-- ===== src/Net.antt =====
-- Connections and the discovery of peers: net/TransportLayer.hpp and net/TransportLayer.cpp.
pub mod Transport
pub mod Discovery
mod Tests
