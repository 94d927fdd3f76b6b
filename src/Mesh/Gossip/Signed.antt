-- ===== src/Mesh/Gossip/Signed.antt =====
-- Signatures of telemetry gossip in consensus/MeshNode.cpp.
use neuro_mesh.Prelude.{
  ◌≡◌, ◌≢◌, refl, Bool, true, false, ◌||◌, some, [], ◌∷◌, ◌++◌, Text, codes, text_eq, text_eq_iff,
  is_empty, ltb, length, ◌≤◌, arith, if_elim, option_elim,
}
use neuro_mesh.Prelude.Search.{has_byte}
use neuro_mesh.Peers.Registry.{get_peer_key, set_peer_telemetry}
use neuro_mesh.Mesh.Types.{MeshNode, World}
use neuro_mesh.Mesh.Wire.{decode_or_empty}
use neuro_mesh.Mesh.Consensus.{push}
use neuro_mesh.Mesh.Gossip.{
  cut, parse_gossip, gossip_payload, gossip_passes, process_telemetry_gossip,
}

pub cut-append :
    (before after : Text)
    → has_byte b'|' before ≡ false
    → cut (before ++ (b'|' ∷ after)) ≡ some (before, after)
unfolding cut
cut-append [] after h = refl
cut-append (c ∷ before) after h = ground (arith, cut-append before after (ground arith))

parse_gossip-parts :
    (head node_id b64_sig json : Text)
    → has_byte b'|' head ≡ false
    → has_byte b'|' node_id ≡ false
    → has_byte b'|' b64_sig ≡ false
    → parse_gossip (head ++ (b'|' ∷ (node_id ++ (b'|' ∷ (b64_sig ++ (b'|' ∷ json))))))
      ≡ some (node_id, b64_sig, json)
unfolding parse_gossip
parse_gossip-parts head node_id b64_sig json g h k =
    rw
      (
        parse_gossip,
        cut-append head (node_id ++ (b'|' ∷ (b64_sig ++ (b'|' ∷ json)))) g,
        cut-append node_id (b64_sig ++ (b'|' ∷ json)) h,
        cut-append b64_sig json k,
      )
      refl

-- The sender, the signature and the text of a gossip are read back from its packet, whatever the text
-- is, if the other two have no delimiter in them.
pub parse_gossip-gossip_payload :
    (node_id b64_sig json : Text)
    → has_byte b'|' node_id ≡ false
    → has_byte b'|' b64_sig ≡ false
    → parse_gossip (gossip_payload node_id b64_sig json) ≡ some (node_id, b64_sig, json)
unfolding gossip_payload
parse_gossip-gossip_payload node_id b64_sig json h k =
    parse_gossip-parts (codes "TELEMETRY") node_id b64_sig json refl h k

-- A gossip in the name of another node, with a signature that does not decode, is taken for true if the
-- node has a key for the sender: its text is kept as the telemetry of the sender.
pub process_telemetry_gossip-undecodable :
    (w : World) (m : MeshNode) (id b64_sig json : Text)
    → has_byte b'|' id ≡ false
    → has_byte b'|' b64_sig ≡ false
    → is_empty id ≡ false
    → length id ≤ 64
    → id ≢ m.node_id
    → is_empty (get_peer_key id m.peers) ≡ false
    → decode_or_empty b64_sig ≡ []
    → process_telemetry_gossip w (gossip_payload id b64_sig json) m
      ≡ push json (record m { peers = set_peer_telemetry id json m.peers })
unfolding process_telemetry_gossip gossip_passes
process_telemetry_gossip-undecodable w m id b64_sig json h k named short other keyed undecodable =
    let named_other : (is_empty id || text_eq id m.node_id || ltb 64 (length id)) ≡ false =
      ground (arith, text_eq_iff id m.node_id) in
    let passes : gossip_passes w id b64_sig json m ≡ true =
      if_elim (λ (b : Bool). b ≡ true) (is_empty b64_sig) (λ e. refl)
        (λ e. rw keyed (
          option_elim (λ (b : Bool). b ≡ true)
            (w.platform.get_pubkey_from_pem (get_peer_key id m.peers)) (λ e. refl)
            (λ key e. rw undecodable refl))) in
    rw
      (
        process_telemetry_gossip,
        parse_gossip-gossip_payload id b64_sig json h k,
        named_other,
        passes,
      )
      refl
