-- ===== src/Mesh/Tests.antt =====
-- A node of consensus/MeshNode.cpp in a concrete world.
mod Packets
mod Runs
use neuro_mesh.Prelude.{ℕ, true, false, Option, none, some, List, [], ◌∷◌, Text, codes, length}
use neuro_mesh.Prelude.Int.{ℤ, pos}
use neuro_mesh.Common.StateJournal.{StateJournal, FileCalls}
use neuro_mesh.Enforcer.Types.{Host}
use neuro_mesh.Pbft.Tests.{toy, four_nodes}
use neuro_mesh.Peers.Types.{PeerEntry, new_peer_entry, new_peer_manager}
use neuro_mesh.ProofChain.{new_chain}
use neuro_mesh.Mesh.Types.{MeshNode, World}

-- Clocks that stand still, files and connections that work, and peers that do not answer.
abbrev pub still_host : Host
still_host = record {
  inet_pton4 = λ text. some 167772161;
  inet_ntop4 = λ addr. [];
  inet_pton6 = λ text. none;
  now = λ trace. 0;
  succeeds = λ trace command. true;
  printed = λ trace. [];
  pidfd_open = λ trace pid. none;
}

abbrev pub working : FileCalls
working = record {
  opens = true;
  locks = true;
  stats = true;
  backup_opens = true;
  seeks = true;
  read_fails_after = none;
  backup_short_after = none;
  truncates = true;
  written = λ line. some (length line);
}

abbrev pub toy_world : World
toy_world = record {
  platform = toy;
  host = still_host;
  now = λ outputs. 0;
  wall_ms = λ outputs. 0;
  file_calls = λ outputs. working;
  sends = λ outputs fd payload. true;
  connects = λ outputs ip port. some 9;
  resolve_host = λ name. name;
  pex_answer = λ outputs ip port. none;
  digest = λ text. some (length text ∷ []);
}

-- A peer whose key a beacon has confirmed.
abbrev pub bravo : PeerEntry
bravo = record new_peer_entry {
  node_id = codes "b";
  ip = codes "10.0.0.2";
  public_key_pem = codes "B";
  verified = true;
  confirmed_paths = 1;
}

abbrev pub toy_node : MeshNode
toy_node = record {
  node_id = codes "a";
  tcp_port = pos 10001;
  tls_port = pos 10002;
  private_key = codes "key";
  public_key_pem = codes "A";
  tls_cert_fingerprint = codes "f";
  tls_cert_pem = codes "cert";
  webhook_url = [];
  max_evidence_size = 4096;
  has_transport = true;
  has_mitigation = true;
  has_bridge = true;
  seed_peers = [];
  sequence_number = 0;
  last_announce_time = 0;
  last_targeted_at = 0;
  tls_connect_queue = [];
  pbft = four_nodes;
  peers = record new_peer_manager { peers = (codes "b", bravo) ∷ [] };
  enforcer = none;
  journal = record {
    seq = 0;
    is_open = true;
    content = [];
    backup = [];
    write_failure_logged = false;
  };
  proof_chain = new_chain (codes "a");
  outputs = [];
}
