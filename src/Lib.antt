-- ===== src/Lib.antt =====
-- Neuro-Mesh is a mesh of nodes that watch their hosts, agree on misbehaving peers by a PBFT vote, and
-- isolate them. This library models the parts of the node that decide and remember:
--
-- * Pbft, of consensus/PBFT.hpp: class `PBFTConsensus`. `Pbft.Types` has its data, `Pbft.Registry` the
--   constructor, the peers, the bans and the reads, `Pbft.Settings` the environment variables,
--   `Pbft.Trust` the trust scores, `Pbft.Verify` `verify_message`, `Pbft.Advance` what
--   `advance_state` does before the vote (rate limit, duplicates, stale rounds, equivocation),
--   `Pbft.Vote` the vote and `advance_state` itself, `Pbft.Calls` histories of calls.
-- * Peers, of consensus/PeerManager.hpp and consensus/PeerManager.cpp: `Peers.Registry` the peers,
--   cooldowns, telemetry and addresses, `Peers.Trust` pinned certificates and the confirmation of keys
--   on two paths, `Peers.Rates` the rate limit, `Peers.Calls` histories of calls.
-- * ProofChain, of crypto/ProofChain.hpp: the chain of links, its Merkle tree (`ProofChain.Merkle`)
--   and its JSON (`ProofChain.Printed`).
-- * Crypto, of crypto/CryptoCore.hpp and crypto/CryptoCore.cpp: the record `Crypto` is what the other
--   parts use, and `Crypto.Core` fills it from OpenSSL, a parameter.
-- * Mitigation, of enforcer/MitigationEngine.cpp: what a node does after a verdict, as a list of effects
--   on a world of parameters: the JSON parser, the process table, the policy enforcer.
-- * Enforcer, of enforcer/PolicyEnforcer.hpp and enforcer/PolicyEnforcer.cpp: class `PolicyEnforcer`.
--   `Enforcer.Addresses` has the checks of addresses, the safe list and the maps of peers,
--   `Enforcer.Nftables` the rules of nftables and the search of their handles, `Enforcer.Backends` the
--   other backends and their order, `Enforcer.Isolation` `isolate_target` and `release_target`,
--   `Enforcer.Processes` suspended processes. A command is a system call or the run of a program; a
--   trace lists the commands given, and whether one succeeds may depend on the trace.
-- * Mesh, of consensus/MeshNode.hpp and consensus/MeshNode.cpp: class `MeshNode`. `Mesh.Wire` has the
--   texts of packets, `Mesh.Consensus` the node's own votes and what follows them, `Mesh.Vote`,
--   `Mesh.Announce` and `Mesh.Message` the handlers behind `process_message`, `Mesh.Beacon` and
--   `Mesh.Gossip` those of the discovery port, `Mesh.Pex` the exchange of peer lists, `Mesh.Upkeep` the
--   work of the background loops, `Mesh.Start` the constructor and the events, `Mesh.Histories` what
--   histories of events keep, `Mesh.Responses` when the mitigation engine is asked. What a node sends,
--   pushes or asks for is a list of outputs.
-- * Net, of net/TransportLayer.hpp and net/TransportLayer.cpp: `Net.Transport` is class
--   `TransportLayer`, with what it does to descriptors as a list of acts, `Net.Discovery` class
--   `PeerDiscovery`.
-- * Common, of the directory common/: `Common.Base64`, `Common.Result`, `Common.StateJournal`.
--
-- The node holds a consensus, a peer manager, a proof chain, a journal and an enforcer, and its handlers
-- call their operations in the order of the code: a key that both discovery paths confirm is registered
-- with the consensus, and a round that executes goes to the journal, the proof chain and the mitigation
-- engine. The consensus signs, hashes and verifies through the record `Crypto`. `Prelude` has what the
-- parts share: texts as lists of bytes, maps as association lists, decimals, signed integers, lemmas.
--
-- How state corresponds: a class is a record of its members, a method a function from the state before
-- it to the state after it and its result. A mutex is held over a whole method, so a method is one
-- step, and an interleaving of threads is a list of calls. `isolate_target` is the exception: it gives up
-- the mutex between its checks and the record of its result, while the model takes it as one step, so
-- what is shown of it holds of calls that do not overlap. A clock reading is an argument of the call,
-- in nanoseconds; a span between two readings is cut off at 0. The trust score, a double that the code
-- changes in steps of 0.01 and more, is counted in hundredths. `m_total_nodes` is an integer without
-- the overflow at 2^31, sequence numbers wrap where the code lets them; the view counter does not wrap.
-- The order in which an unordered container is walked is the parameter `bucket_order`, any
-- rearrangement. What system calls and OpenSSL give is a parameter. Log output is left out.
--
-- A handler of the node is one event; the clock gives one value between two outputs. A plain `char` is
-- signed, as on the platforms that the code is built for. A datagram is read up to its first zero
-- byte, as the code does.
--
-- Fuel: `send` has the number of bytes, of which each write takes one or more; the broadcast of a stage
-- has three, for the votes that may follow one another, which `Mesh.Consensus.Rounds` shows to be
-- enough; the decimal printer has the number itself, a digit less for each step; the layers of the
-- Merkle tree have the number of leaves, more than the tree is high.
--
-- Not modelled: sockets, threads and TLS, with the certificates of net/TransportLayer.cpp and
-- net/NetUtil.hpp, the jitter of UDP sends and the process of
-- `notify_webhook` in consensus/MeshNode.cpp, key storage (crypto/KeyManager.cpp,
-- crypto/CertificateAuthority.cpp), cell/, telemetry/, kernel/, attacks/, tools/ and the scripts.
pub mod Prelude
pub mod Crypto
pub mod Pbft
pub mod ProofChain
pub mod Peers
pub mod Enforcer
pub mod Mesh
pub mod Net
pub mod Mitigation
pub mod Common
