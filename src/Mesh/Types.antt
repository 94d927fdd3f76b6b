-- ===== src/Mesh/Types.antt =====
-- The state of `MeshNode` (consensus/MeshNode.hpp), what it asks of the system, and what it gives to
-- the outside. The clock and the system calls may answer by all that was given before, which a list
-- holds with the last output in front. The log and the mutexes are left out.
use neuro_mesh.Prelude.{ℕ, Bool, Option, List, ◌∷◌, Text}
use neuro_mesh.Prelude.Int.{ℤ}
use neuro_mesh.Common.StateJournal.{StateJournal, FileCalls}
use neuro_mesh.Enforcer.Types.{Host, PolicyEnforcer}
use neuro_mesh.Pbft.Types.{PbftConsensus, Platform}
use neuro_mesh.Peers.Types.{PeerManager}
use neuro_mesh.ProofChain.{ProofChain}

-- A packet to the consensus port or to the discovery port of the subnet, to one address, or on a TLS
-- connection; a text to the telemetry bridge; the export of the proof chain; the alert webhook; the
-- response of the mitigation engine to evidence about a target; a list of peers to an address and to
-- a connection; a certificate to the trust store; the closing of a connection.
pub data Output : Type 0 where
  broadcast : Text → Output
  discovery : Text → Output
  unicast : Text → ℤ → Text → Output
  tls_send : ℕ → Text → Output
  push_telemetry : Text → Output
  export_file : Output
  webhook : Text → Text → ℕ → ℕ → Output
  respond : Text → Text → Output
  pex_hello : Text → ℤ → Text → Output
  pex_reply : Text → Output
  trust_cert : Text → Output
  close : ℕ → Output

-- `TLSConnectTask`
pub record TlsConnectTask : Type 0 where
  pub peer_id : Text
  pub ip : Text
  pub port : ℤ

-- The members of the class that its handlers use; a pointer that may be null is a Boolean, or an
-- option where the object behind it changes.
pub record MeshNode : Type 0 where
  pub node_id : Text
  pub tcp_port : ℤ
  pub tls_port : ℤ
  pub private_key : Text
  pub public_key_pem : Text
  pub tls_cert_fingerprint : Text
  pub tls_cert_pem : Text
  pub webhook_url : Text
  pub max_evidence_size : ℕ
  pub has_transport : Bool
  pub has_mitigation : Bool
  pub has_bridge : Bool
  pub seed_peers : List (Text × ℤ)
  pub sequence_number : ℕ
  pub last_announce_time : ℕ
  pub last_targeted_at : ℕ
  pub tls_connect_queue : List TlsConnectTask
  pub pbft : PbftConsensus
  pub peers : PeerManager
  pub enforcer : Option PolicyEnforcer
  pub journal : StateJournal
  pub proof_chain : ProofChain
  pub outputs : List Output

-- `now` reads the steady clock in nanoseconds, `wall_ms` the system clock; `sends` is whether a
-- connection takes a whole payload, `connects` the descriptor of a new connection; `pex_answer` what
-- a peer answers to a list of peers, if a connection is made and something is read; `digest` is
-- OpenSSL's SHA-256 as the proof chain uses it.
pub record World : Type 0 where
  pub platform : Platform
  pub host : Host
  pub now : List Output → ℕ
  pub wall_ms : List Output → ℕ
  pub file_calls : List Output → FileCalls
  pub sends : List Output → ℕ → Text → Bool
  pub connects : List Output → Text → ℤ → Option ℕ
  pub resolve_host : Text → Text
  pub pex_answer : List Output → Text → ℤ → Option Text
  pub digest : Text → Option (List ℕ)

abbrev pub give : Output → MeshNode → MeshNode
give output m = record m { outputs = output ∷ m.outputs }
