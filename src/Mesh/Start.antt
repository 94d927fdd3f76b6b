-- ===== src/Mesh/Start.antt =====
-- The constructor of `MeshNode` in consensus/MeshNode.cpp, and the events that a node handles.
use neuro_mesh.Prelude.{Option, none, some, List, [], ◌∷◌, Text, codes, if◌then◌else◌, ◌==◌}
use neuro_mesh.Prelude.Int.{ℤ, pos}
use neuro_mesh.Prelude.Search.{split_string, contains_text}
use neuro_mesh.Common.Base64.{base64_decode, Decoded}
use neuro_mesh.Pbft.Registry.{
  init, register_peer_key, set_my_identity, set_private_key, increment_peers,
}
use neuro_mesh.Pbft.Types.{Platform}
use neuro_mesh.Peers.Trust.{pre_provision_peer_key}
use neuro_mesh.Peers.Types.{new_peer_manager}
use neuro_mesh.ProofChain.{new_chain}
use neuro_mesh.Mesh.Types.{MeshNode, World}
use neuro_mesh.Mesh.Consensus.{initiate_consensus, propose_ban}
use neuro_mesh.Mesh.Message.{process_message}
use neuro_mesh.Mesh.Pex.{process_pex}
use neuro_mesh.Mesh.Gossip.{gossip_telemetry, gossip_event_json, receive_discovery}
use neuro_mesh.Mesh.Upkeep.{
  monitor, heartbeat, work, disconnect_tls_peer, unpin_peer_key, set_seed_peers,
}

-- A text at its first colon.
unfoldable pub at_colon : Text → Option (Text × Text)
at_colon [] = none
at_colon (c ∷ s) =
    let later = at_colon s in
    if c == b':'
    then some ([], s)
    else elim later [ none ↦ none | some (before, after) ↦ some (c ∷ before, after) ]

-- A key that is no PEM text is taken as base64, if it decodes.
unfoldable pub provisioned_pem : Text → Text
unfolding contains_text base64_decode
provisioned_pem text =
    if contains_text (codes "-----BEGIN") text
    then text
    else elim (base64_decode text) [ Decoded.bytes pem ↦ pem | Decoded.error e ↦ text ]

-- The loop over the entries of `NEURO_PEER_KEYS`.
unfoldable pub provision : Platform → List Text → MeshNode → MeshNode
unfolding at_colon provisioned_pem
provision env [] m = m
provision env (entry ∷ entries) m = provision env entries (elim (at_colon entry) [
  | none ↦ m
  | some (peer_id, text) ↦ record m {
    peers = pre_provision_peer_key peer_id (provisioned_pem text) m.peers;
    pbft = increment_peers (register_peer_key env peer_id (provisioned_pem text) m.pbft);
  }
])

-- The constructor, on a node that has its identity and its settings: the consensus starts with the
-- node alone, then come its own key, and the keys that the environment gives.
unfoldable pub construct : Platform → (window limit peer_keys : Option Text) → MeshNode → MeshNode
unfolding init provision split_string new_chain
construct env window limit peer_keys m =
    let alone : MeshNode = record m {
      pbft = set_private_key (some m.private_key) (
          set_my_identity m.node_id
            (register_peer_key env m.node_id m.public_key_pem (init env (pos 1) window limit)));
      peers = new_peer_manager;
      proof_chain = new_chain m.node_id;
      sequence_number = 0;
      last_announce_time = 0;
      last_targeted_at = 0;
      tls_connect_queue = [];
      seed_peers = [];
    } in
    elim peer_keys [ none ↦ alone | some keys ↦ provision env (split_string b',' keys) alone ]

pub data Event : Type 0 where
  message : Text → Text → Event
  packet : Text → Text → Event
  pex : Text → Event
  consensus : Text → Text → Event
  ban : Text → Text → Event
  telemetry : Text → Event
  event_json : Text → Event
  monitoring : Event
  beating : Event
  connecting : Event
  disconnecting : Text → Event
  unpinning : Text → Event
  seeding : List (Text × ℤ) → Event

-- `none` where the handler has no defined behaviour.
unfoldable pub handle : World → Event → MeshNode → Option MeshNode
unfolding process_message receive_discovery process_pex initiate_consensus propose_ban
    gossip_telemetry gossip_event_json monitor heartbeat work disconnect_tls_peer unpin_peer_key
    set_seed_peers
handle w (message msg sender_ip) m = some (process_message w msg sender_ip m)
handle w (packet buffer sender_ip) m = receive_discovery w buffer sender_ip m
handle w (pex buffer) m = some (process_pex w buffer m)
handle w (consensus target evidence) m = some (initiate_consensus w target evidence m)
handle w (ban target reason) m = some (propose_ban w target reason m).0
handle w (telemetry json) m = some (gossip_telemetry w json m)
handle w (event_json json) m = some (gossip_event_json w json m)
handle w monitoring m = some (monitor w m)
handle w beating m = some (heartbeat w m)
handle w connecting m = some (work w m)
handle w (disconnecting id) m = some (disconnect_tls_peer w id m)
handle w (unpinning id) m = some (unpin_peer_key id m)
handle w (seeding seeds) m = some (set_seed_peers w seeds m)

-- The events in their order, while the behaviour is defined.
unfoldable pub handle_all : World → List Event → MeshNode → Option MeshNode
unfolding handle
handle_all w [] m = some m
handle_all w (event ∷ events) m = elim (handle w event m) [
  | none ↦ none
  | some n ↦ handle_all w events n
]
