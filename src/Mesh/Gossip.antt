-- ===== src/Mesh/Gossip.antt =====
-- Telemetry gossip in consensus/MeshNode.cpp, and the packets of the discovery port.
pub mod Signed
pub mod Defined
use neuro_mesh.Prelude.{
  ℕ, Bool, true, false, not, ◌&&◌, ◌||◌, Option, none, some, List, [], ◌∷◌, ◌++◌, Text, codes,
  text_eq, is_empty, if◌then◌else◌, ltb, ◌==◌, length,
}
use neuro_mesh.Prelude.Search.{starts_with}
use neuro_mesh.Common.Base64.{base64_encode}
use neuro_mesh.Pbft.Types.{Platform}
use neuro_mesh.Peers.Rates.{check_rate_limit}
use neuro_mesh.Peers.Registry.{
  set_own_telemetry, set_peer_telemetry, get_peer_key, get_all_telemetry,
}
use neuro_mesh.Mesh.Types.{MeshNode, World, Output, give}
use neuro_mesh.Mesh.Wire.{piped, c_string, decode_or_empty}
use neuro_mesh.Mesh.Consensus.{push}
use neuro_mesh.Mesh.Beacon.{process_discovery_beacon}

-- A text at its first delimiter: what stands before it and after it.
unfoldable pub cut : Text → Option (Text × Text)
cut [] = none
cut (c ∷ s) =
    let later = cut s in
    if c == b'|'
    then some ([], s)
    else elim later [ none ↦ none | some (before, after) ↦ some (c ∷ before, after) ]

-- The sender, the encoded signature and the text of a gossip; with no third delimiter there is no
-- signature.
unfoldable pub parse_gossip : Text → Option (Text × Text × Text)
unfolding cut
parse_gossip msg = elim (cut msg) [
  | none ↦ none
  | some (_, after_first) ↦ elim (cut after_first) [
    | none ↦ none
    | some (peer_id, after_second) ↦ elim (cut after_second) [
      | none ↦ some (peer_id, [], after_second)
      | some (b64_sig, json) ↦ some (peer_id, b64_sig, json)
    ]
  ]
]

abbrev pub gossip_blob : (node_id json : Text) → Text
gossip_blob node_id json = piped (codes "TELEMETRY") (piped node_id json)

unfoldable pub gossip_payload : (node_id b64_sig json : Text) → Text
gossip_payload node_id b64_sig json = piped (codes "TELEMETRY") (piped node_id (piped b64_sig json))

module _ (w : World) where
  open w use {platform}

  unfoldable pub gossip_event_json : Text → MeshNode → MeshNode
  unfolding gossip_payload push
  gossip_event_json json m =
      let raw_sig = platform.sign_payload m.private_key (gossip_blob m.node_id json) in
      push json (give (Output.discovery (gossip_payload m.node_id (base64_encode raw_sig) json)) m)

  unfoldable pub gossip_telemetry : Text → MeshNode → MeshNode
  unfolding gossip_event_json set_own_telemetry
  gossip_telemetry telemetry_json m =
      gossip_event_json telemetry_json
        (record m { peers = set_own_telemetry telemetry_json m.peers })

  -- Whether a gossip with a signature is let through: its sender has a key, and where the key can be
  -- read and the signature decodes, the key verifies it.
  unfoldable pub gossip_passes : Text → Text → Text → MeshNode → Bool
  unfolding get_peer_key decode_or_empty
  gossip_passes peer_id b64_sig json m =
      let peer_pem = get_peer_key peer_id m.peers in
      let raw_sig = decode_or_empty b64_sig in
      if is_empty b64_sig
      then true
      else if is_empty peer_pem
      then false
      else elim (platform.get_pubkey_from_pem peer_pem) [
        | none ↦ true
        | some key ↦
            is_empty raw_sig
            || platform.verify_signature (some key) (gossip_blob peer_id json) raw_sig
      ]

  unfoldable pub process_telemetry_gossip : Text → MeshNode → MeshNode
  unfolding parse_gossip gossip_passes set_peer_telemetry push
  process_telemetry_gossip msg m = elim (parse_gossip msg) [
    | none ↦ m
    | some (peer_id, b64_sig, json) ↦
        if is_empty peer_id || text_eq peer_id m.node_id || ltb 64 (length peer_id)
        then m
        else if gossip_passes peer_id b64_sig json m
        then push json (record m { peers = set_peer_telemetry peer_id json m.peers })
        else m
  ]

  unfoldable pub get_mesh_telemetry : MeshNode → Text
  unfolding get_all_telemetry
  get_mesh_telemetry m = get_all_telemetry platform m.peers

  -- One packet of the discovery socket in `p2p_listener_loop`; a packet with no byte ends the round.
  unfoldable pub receive_discovery : Text → Text → MeshNode → Option MeshNode
  unfolding check_rate_limit c_string starts_with process_telemetry_gossip process_discovery_beacon
  receive_discovery buffer sender_ip m =
      let (limited, ok) = check_rate_limit platform (w.now m.outputs) sender_ip m.peers in
      let counted : MeshNode = record m { peers = limited } in
      let dmsg : Text = c_string buffer in
      if is_empty buffer
      then some m
      else if not ok
      then some counted
      else if starts_with (codes "TELEMETRY|") dmsg
      then some (process_telemetry_gossip dmsg counted)
      else process_discovery_beacon w dmsg sender_ip counted
