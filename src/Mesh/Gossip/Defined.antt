-- ===== src/Mesh/Gossip/Defined.antt =====
-- For which packets the discovery socket of consensus/MeshNode.cpp has a defined behaviour.
