-- ===== src/Mesh/Beacon.antt =====
-- Discovery beacons in consensus/MeshNode.cpp: `send_discovery_beacon` and `process_discovery_beacon`.
pub mod Formats
pub mod Pins
use neuro_mesh.Prelude.{
  ℕ, ◌+◌, ◌-◌, ◌*◌, ◌/◌, ◌%◌, ◌^◌, Bool, true, false, not, ◌&&◌, ◌||◌, Option, none, some, List, [],
  ◌∷◌, ◌++◌, Text, codes, text_eq, is_empty, if◌then◌else◌, ltb, leb, length,
}
use neuro_mesh.Prelude.Decimal.{int_to_text}
use neuro_mesh.Prelude.Int.{ℤ, pos, negsuc}
use neuro_mesh.Prelude.Search.{split_string}
use neuro_mesh.Common.Base64.{base64_encode}
use neuro_mesh.Enforcer.Addresses.{register_peer_ip, register_peer_port}
use neuro_mesh.Pbft.Registry
use neuro_mesh.Peers.Registry.{add_peer, update_peer_heartbeat, get_peer, has_peer}
use neuro_mesh.Peers.Trust.{verify_tls_cert, pin_tls_fingerprint, confirm_path}
use neuro_mesh.Peers.Types.{PeerManager, PeerEntry, path_beacon}
use neuro_mesh.Mesh.Types.{MeshNode, World, Output, TlsConnectTask, give}
use neuro_mesh.Mesh.Wire.{
  piped, try_parse_int, try_parse_long, decode_or_empty, beacon_blob, beacon_payload,
}
use neuro_mesh.Mesh.Vote.{token}
use neuro_mesh.Mesh.Announce.{tell_enforcer, register_confirmed, is_signed}
use neuro_mesh.Mesh.Pex.{perform_pex_handshake}

-- The fields of a beacon, empty where its format has none.
pub record Beacon : Type 0 where
  pub peer_id : Text
  pub tcp_port : ℤ
  pub tls_port : ℤ
  pub timestamp : ℤ
  pub peer_pem : Text
  pub tls_fingerprint : Text
  pub b64_cert_pem : Text
  pub raw_sig : Text

-- The ports and the time of a beacon with `n` tokens; the old format has no TLS port.
unfoldable pub beacon_numbers : ℕ → List Text → Option (ℤ × ℤ × ℤ)
unfolding try_parse_int try_parse_long token
beacon_numbers n tokens = elim (try_parse_int (token 2 tokens)) [
  | none ↦ none
  | some tcp_port ↦ elim (if leb 7 n then try_parse_int (token 3 tokens) else some (pos 0)) [
    | none ↦ none
    | some tls_port ↦ elim (try_parse_long (token (if leb 7 n then 4 else 3) tokens)) [
      | none ↦ none
      | some timestamp ↦ some (tcp_port, tls_port, timestamp)
    ]
  ]
]

-- The encoded signature of a beacon with `n` tokens.
unfoldable pub beacon_sig : ℕ → List Text → Text
unfolding token
beacon_sig n tokens = if leb 9 n then token 8 tokens else if leb 8 n then token 7 tokens else []

-- The beacon in the tokens; the signature is empty in the formats with fewer than eight of them.
unfoldable pub parse_beacon : Text → List Text → Option Beacon
unfolding beacon_numbers beacon_sig token decode_or_empty
parse_beacon node_id tokens =
    let n = length tokens in
    let peer_pem = decode_or_empty (token (if leb 7 n then 5 else 4) tokens) in
    let raw_sig = decode_or_empty (beacon_sig n tokens) in
    if ltb n 6 then none else elim (beacon_numbers n tokens) [
      | none ↦ none
      | some (tcp_port, tls_port, timestamp) ↦
          if text_eq (token 1 tokens) node_id || is_empty peer_pem || is_empty raw_sig
          then none
          else some (record {
            peer_id = token 1 tokens;
            tcp_port = tcp_port;
            tls_port = tls_port;
            timestamp = timestamp;
            peer_pem = peer_pem;
            tls_fingerprint = if leb 7 n then token 6 tokens else [];
            b64_cert_pem = if leb 9 n then token 7 tokens else [];
            raw_sig = raw_sig;
          })
    ]

-- What the signature of a beacon with `n` tokens covers.
unfoldable pub signed_beacon : ℕ → Beacon → Text
unfolding beacon_blob int_to_text
signed_beacon n b =
    let ports : Text → Text = λ rest. piped b.peer_id (
      piped (int_to_text b.tcp_port)
        (piped (int_to_text b.tls_port) (int_to_text b.timestamp ++ rest))) in
    if leb 9 n
    then beacon_blob b.peer_id b.tcp_port b.tls_port b.timestamp b.tls_fingerprint b.b64_cert_pem
    else if leb 8 n
    then ports (b'|' ∷ b.tls_fingerprint)
    else if leb 7 n
    then ports []
    else piped b.peer_id (int_to_text b.timestamp)

-- The reading of the clock in microseconds and the time of a beacon are at most 60 whole seconds
-- apart.
unfoldable pub is_recent : ℕ → ℤ → Bool
is_recent now_us (pos t) = leb ((now_us - t) / 1000000) 60 && leb ((t - now_us) / 1000000) 60
is_recent now_us (negsuc t) = leb ((now_us + t + 1) / 1000000) 60

-- `uint16_t` of an `int`
abbrev pub to_uint16 : ℤ → ℕ
to_uint16 (pos n) = n % 2 ^ 16
to_uint16 (negsuc n) = 2 ^ 16 - 1 - n % 2 ^ 16

abbrev pub is_positive : ℤ → Bool
is_positive (pos n) = ltb 0 n
is_positive (negsuc n) = false

module _ (w : World) where
  open w use {platform, host}

  unfoldable pub send_to_seeds : Text → List (Text × ℤ) → MeshNode → MeshNode
  send_to_seeds payload [] m = m
  send_to_seeds payload ((ip, port) ∷ seeds) m =
      send_to_seeds payload seeds (give (Output.unicast ip port payload) m)

  unfoldable pub send_discovery_beacon : MeshNode → MeshNode
  unfolding beacon_blob beacon_payload send_to_seeds
  send_discovery_beacon m =
      let us = pos (w.now m.outputs / 1000) in
      let b64_cert_pem = base64_encode m.tls_cert_pem in
      let blob : Text =
        beacon_blob m.node_id m.tcp_port m.tls_port us m.tls_cert_fingerprint b64_cert_pem in
      let b64_sig = base64_encode (platform.sign_payload m.private_key blob) in
      let payload : Text =
        beacon_payload m.node_id m.tcp_port m.tls_port us (base64_encode m.public_key_pem)
          m.tls_cert_fingerprint b64_cert_pem b64_sig in
      send_to_seeds payload m.seed_peers (give (Output.discovery payload) m)

  -- The fingerprint of the peer's certificate is pinned, unless another one is.
  unfoldable pub pin_certificate : Beacon → PeerManager → ℕ → Option PeerManager
  pin_certificate b peers now =
      if is_empty b.tls_fingerprint
      then some peers
      else if verify_tls_cert b.peer_id b.tls_fingerprint peers
      then some (pin_tls_fingerprint now b.peer_id b.tls_fingerprint peers)
      else none

  -- A known peer is heard of, unless it has another key.
  unfoldable pub hear_again : ℕ → Beacon → Text → Bool → PeerManager → PeerManager
  hear_again now b sender_ip is_new peers =
      let known = (get_peer b.peer_id peers).public_key_pem in
      let key_rejected =
        not (is_empty b.peer_pem) && not (is_empty known) && not (text_eq known b.peer_pem) in
      if is_new || key_rejected
      then peers
      else (update_peer_heartbeat now b.peer_id sender_ip b.tcp_port b.tls_port b.peer_pem peers).0

  -- A certificate that comes with a key that is registered now is trusted.
  unfoldable pub trust_certificate : Bool → Beacon → MeshNode → MeshNode
  unfolding decode_or_empty
  trust_certificate registering b m =
      let peer_cert_pem = decode_or_empty b.b64_cert_pem in
      if registering
        && not (is_empty b.b64_cert_pem)
        && m.has_transport
        && not (is_empty peer_cert_pem)
      then give (Output.trust_cert peer_cert_pem) m
      else m

  -- A connection to the peer is queued.
  unfoldable pub queue_connect : Beacon → Text → MeshNode → MeshNode
  queue_connect b sender_ip m =
      if is_positive b.tls_port && m.has_transport
      then record m {
        tls_connect_queue =
            m.tls_connect_queue
            ++ record { peer_id = b.peer_id; ip = sender_ip; port = b.tls_port } ∷ [];
      }
      else m

  unfoldable pub tell_port : Beacon → MeshNode → MeshNode
  unfolding tell_enforcer register_peer_port
  tell_port b m =
      if is_positive b.tcp_port
      then tell_enforcer (register_peer_port b.peer_id (to_uint16 b.tcp_port)) m
      else m

  -- What follows where the peer is new, or both paths confirm its key.
  unfoldable pub welcome : Beacon → Text → Bool → MeshNode → MeshNode
  unfolding register_confirmed trust_certificate tell_enforcer tell_port register_peer_ip
      queue_connect perform_pex_handshake
  welcome b sender_ip dual_confirmed m =
      let registering = dual_confirmed && not (Registry.has_peer b.peer_id m.pbft) in
      let registered : MeshNode = record m {
        pbft = register_confirmed platform dual_confirmed b.peer_id b.peer_pem m.pbft;
      } in
      let told : MeshNode = tell_port b (
        tell_enforcer (register_peer_ip host b.peer_id sender_ip)
          (trust_certificate registering b registered)) in
      queue_connect b sender_ip (
        if has_peer b.peer_id told.peers
        then (perform_pex_handshake w sender_ip b.tcp_port b.peer_id told).0
        else told)

  -- From the pinned certificate on.
  unfoldable pub admit_beacon : Beacon → Text → PeerManager → MeshNode → MeshNode
  unfolding add_peer confirm_path hear_again welcome
  admit_beacon b sender_ip pinned m =
      let now = w.now m.outputs in
      let (added, is_new) =
        add_peer now b.peer_id sender_ip b.tcp_port b.tls_port b.peer_pem pinned in
      let (confirmed, confirm) = confirm_path path_beacon b.peer_id b.peer_pem added in
      let heard : MeshNode = record m { peers = hear_again now b sender_ip is_new confirmed } in
      if confirm.key_mismatch
      then record m { peers = confirmed }
      else if is_new || confirm.dual_confirmed
      then welcome b sender_ip confirm.dual_confirmed heard
      else heard

  unfoldable pub accept_beacon : ℕ → Beacon → Text → MeshNode → MeshNode
  unfolding signed_beacon is_signed is_recent pin_certificate admit_beacon
  accept_beacon n b sender_ip m =
      let now = w.now m.outputs in
      if is_signed w b.peer_pem (signed_beacon n b) b.raw_sig && is_recent (now / 1000) b.timestamp
      then elim (pin_certificate b m.peers now) [
        | none ↦ m
        | some pinned ↦ admit_beacon b sender_ip pinned m
      ]
      else m

  -- `none` where `tokens[0]` is read and there is no token, which has no defined behaviour.
  unfoldable pub process_discovery_beacon : Text → Text → MeshNode → Option MeshNode
  unfolding split_string token parse_beacon accept_beacon
  process_discovery_beacon msg sender_ip m =
      let tokens = split_string b'|' msg in
      if ltb (length tokens) 1
      then none
      else if not (text_eq (token 0 tokens) (codes "DISCOVERY"))
      then some m
      else elim (parse_beacon m.node_id tokens) [
        | none ↦ some m
        | some b ↦ some (accept_beacon (length tokens) b sender_ip m)
      ]
