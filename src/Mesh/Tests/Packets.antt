-- ===== src/Mesh/Tests/Packets.antt =====
-- The theorems on packets of consensus/MeshNode.cpp at concrete inputs.
use neuro_mesh.Prelude.{
  ◌≤◌, ◌≡◌, ◌↔◌, refl, true, false, some, [], ◌∷◌, Text, codes, text_eq, text_key, length, All,
  arith,
}
use neuro_mesh.Prelude.Decimal.{to_text, int_to_text}
use neuro_mesh.Prelude.Dict.{lookup}
use neuro_mesh.Prelude.Int.{pos}
use neuro_mesh.Prelude.Search.{split_string, starts_with}
use neuro_mesh.Pbft.Advance.{stage_prepare}
use neuro_mesh.Pbft.Types.{P2pMessage}
use neuro_mesh.Peers.Registry.{get_peer_key}
use neuro_mesh.Peers.Trust.{verify_tls_cert}
use neuro_mesh.Mesh.Announce.{is_signed}
use neuro_mesh.Mesh.Beacon.{Beacon, signed_beacon, is_recent, accept_beacon}
use neuro_mesh.Mesh.Beacon.Pins.{IsStranger, accept_beacon-pins}
use neuro_mesh.Mesh.Consensus.{payload_of}
use neuro_mesh.Mesh.Tests.{toy_world, toy_node, bravo}
use neuro_mesh.Mesh.Types.{MeshNode}
use neuro_mesh.Mesh.Vote.{parse_vote}
use neuro_mesh.Mesh.Vote.RoundTrip.{IsSendable, parse_vote-payload_of}
use neuro_mesh.Mesh.Wire.{validate_message, beacon_blob}
use neuro_mesh.Mesh.Wire.Valid.{IsPlain, validate_message-IsPlain}

abbrev accented : Text
accented = b'a' ∷ 195 ∷ 169 ∷ []

validate_message-IsPlain_example :
    (validate_message accented ≡ true)
    ↔ ((1 ≤ length accented) × (length accented ≤ 65536) × All IsPlain accented)
validate_message-IsPlain_example = validate_message-IsPlain accented

abbrev sent : P2pMessage
sent = record {
  stage_str = stage_prepare;
  sender_id = codes "b";
  target_id = codes "x";
  evidence_json = codes "{}";
  signature = 200 ∷ 7 ∷ [];
  prev_message_hash = codes "0f";
  sequence_number = 12;
  view = pos 3;
}

sent-IsSendable : IsSendable 4096 sent
unfolding starts_with text_eq
sent-IsSendable = record {
  stage = refl;
  sender = (refl, ground arith);
  sender_clean = refl;
  target = (refl, ground arith);
  target_clean = refl;
  evidence_bytes = (omega arith, (omega arith, tt));
  evidence_object = refl;
  evidence_size = ground arith;
  hash_clean = refl;
  signature_bytes = (omega arith, (omega arith, tt));
  signed = refl;
  sequence = ground arith;
  view = (3, refl, ground arith);
}

parse_vote-payload_of_example : parse_vote 4096 (split_string b'|' (payload_of sent)) ≡ some sent
parse_vote-payload_of_example = parse_vote-payload_of 4096 sent sent-IsSendable

-- A beacon of another key in the name of the peer.
abbrev forged : Beacon
forged = record {
  peer_id = codes "b";
  tcp_port = pos 1;
  tls_port = pos 2;
  timestamp = pos 0;
  peer_pem = codes "E";
  tls_fingerprint = codes "e";
  b64_cert_pem = [];
  raw_sig = codes "b|1|2|0|e|";
}

forged-IsStranger : IsStranger forged bravo toy_node.peers
unfolding lookup text_eq
forged-IsStranger = record {
  known = refl;
  keyed = refl;
  other_key = refl;
  confirmed = refl;
  unprovisioned = refl;
  unpinned = refl;
  fingerprint = refl;
}

accept_beacon-pins_example :
    let n : MeshNode = accept_beacon toy_world 9 forged (codes "10.0.0.66") toy_node in
    (get_peer_key (codes "b") n.peers ≡ codes "B")
    × (verify_tls_cert (codes "b") (codes "f") n.peers ≡ false)
unfolding is_signed signed_beacon is_recent text_eq beacon_blob int_to_text to_text
accept_beacon-pins_example =
    accept_beacon-pins toy_world toy_node 9 forged bravo (codes "10.0.0.66") (codes "f")
      forged-IsStranger refl refl (λ e. absurd (ground arith))
