-- ===== src/Mesh/Announce.antt =====
-- Announcements of identities in consensus/MeshNode.cpp, and the step that both discovery paths share.
use neuro_mesh.Prelude.{
  ◌-◌, ◌/◌, Bool, false, not, ◌&&◌, ◌||◌, none, some, List, Text, codes, text_eq, is_empty,
  if◌then◌else◌, ltb, leb, length,
}
use neuro_mesh.Prelude.Int.{pos}
use neuro_mesh.Prelude.Search.{contains_text}
use neuro_mesh.Common.Base64.{base64_encode}
use neuro_mesh.Enforcer.Addresses.{register_peer_ip}
use neuro_mesh.Enforcer.Types.{PolicyEnforcer}
use neuro_mesh.Pbft.Registry.{register_peer_key, increment_peers, has_peer}
use neuro_mesh.Pbft.Types.{Platform, PbftConsensus}
use neuro_mesh.Peers.Registry.{add_peer, is_known_ip, add_known_ip}
use neuro_mesh.Peers.Trust.{confirm_path}
use neuro_mesh.Peers.Types.{path_announce}
use neuro_mesh.Mesh.Types.{MeshNode, World, Output, give}
use neuro_mesh.Mesh.Wire.{announce_blob, announce_payload, decode_or_empty}
use neuro_mesh.Mesh.Vote.{token}

-- The address of a peer is told to the enforcer, if there is one.
unfoldable pub tell_enforcer : (PolicyEnforcer → PolicyEnforcer) → MeshNode → MeshNode
tell_enforcer tell m = elim m.enforcer [
  | none ↦ m
  | some enforcer ↦ record m { enforcer = some (tell enforcer) }
]

-- A key that both discovery paths confirm is registered with the consensus, if the peer has none.
unfoldable pub register_confirmed : Platform → Bool → Text → Text → PbftConsensus → PbftConsensus
unfolding has_peer register_peer_key increment_peers
register_confirmed env dual_confirmed peer_id peer_pem p =
    if dual_confirmed && not (has_peer peer_id p)
    then increment_peers (register_peer_key env peer_id peer_pem p)
    else p

-- The checks on an announcement before its signature.
unfoldable pub announce_fields_ok : Text → List Text → Bool
unfolding token contains_text
announce_fields_ok node_id tokens =
    let peer_id = token 1 tokens in
    let peer_pem = token 2 tokens in
    not (ltb (length tokens) 4)
    && not (is_empty peer_id || ltb 64 (length peer_id))
    && not (is_empty peer_pem)
    && contains_text (codes "-----BEGIN PUBLIC KEY-----") peer_pem
    && not (text_eq peer_id node_id)

module _ (w : World) where
  open w use {platform, host}

  unfoldable pub announce_identity : MeshNode → MeshNode
  unfolding announce_payload
  announce_identity m =
      let raw_sig =
        platform.sign_payload m.private_key (announce_blob m.node_id m.public_key_pem) in
      give (Output.broadcast (announce_payload m.node_id m.public_key_pem (base64_encode raw_sig)))
        m

  -- A decoded signature that is not empty, and that the key in the text verifies.
  unfoldable pub is_signed : Text → Text → Text → Bool
  is_signed pem blob raw_sig = elim (platform.get_pubkey_from_pem pem) [
    | none ↦ false
    | some key ↦ not (is_empty raw_sig) && platform.verify_signature (some key) blob raw_sig
  ]

  -- The node answers a peer that it knows at most every two seconds.
  unfoldable pub answer_announce : Bool → MeshNode → MeshNode
  unfolding announce_identity
  answer_announce is_new_peer m =
      let now = w.now m.outputs in
      if is_new_peer
      then announce_identity m
      else if leb 2 ((now - m.last_announce_time) / 1000000000)
      then announce_identity (record m { last_announce_time = now })
      else m

  -- From the peer's known key on: the announcement counts as the second discovery path.
  unfoldable pub admit_announce : Text → Text → Text → MeshNode → MeshNode
  unfolding is_known_ip add_known_ip add_peer confirm_path register_confirmed tell_enforcer
      answer_announce register_peer_ip
  admit_announce peer_id peer_pem sender_ip m =
      let is_new_peer = not (is_known_ip peer_id m.peers) in
      let (added, _) =
        add_peer (w.now m.outputs) peer_id sender_ip (pos 0) (pos 0) peer_pem
          (add_known_ip peer_id m.peers) in
      let (confirmed, confirm) = confirm_path path_announce peer_id peer_pem added in
      let noted : MeshNode = record m { peers = confirmed } in
      if confirm.key_mismatch
      then noted
      else answer_announce is_new_peer (
          tell_enforcer (register_peer_ip host peer_id sender_ip) (record noted {
            pbft = register_confirmed platform confirm.dual_confirmed peer_id peer_pem m.pbft;
          }))

  unfoldable pub process_announce : List Text → Text → MeshNode → MeshNode
  unfolding announce_fields_ok token is_signed decode_or_empty admit_announce
  process_announce tokens sender_ip m =
      let peer_id = token 1 tokens in
      let peer_pem = token 2 tokens in
      let decoded_sig = decode_or_empty (token 3 tokens) in
      if announce_fields_ok m.node_id tokens
        && is_signed peer_pem (announce_blob peer_id peer_pem) decoded_sig
      then admit_announce peer_id peer_pem sender_ip m
      else m
