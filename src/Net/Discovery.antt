-- ===== src/Net/Discovery.antt =====
-- Class `PeerDiscovery` of net/TransportLayer.cpp.
pub mod Heard
use neuro_mesh.Prelude.{
  ℕ, ◌-◌, ◌/◌, Bool, true, false, not, Option, none, some, List, [], ◌∷◌, ◌++◌, Text, text_key,
  text_eq, if◌then◌else◌, ltb, length, ◌==◌, map,
}
use neuro_mesh.Prelude.Decimal.{to_text}
use neuro_mesh.Prelude.Dict.{Dict, lookup, insert}
use neuro_mesh.Prelude.Int.{ℤ}
use neuro_mesh.Prelude.Numbers.{stoi}
use neuro_mesh.Mesh.Beacon.{to_uint16}
use neuro_mesh.Mesh.Gossip.{cut}
use neuro_mesh.Mesh.Wire.{piped}

pub record PeerInfo : Type 0 where
  pub node_id : Text
  pub ip : Text
  pub port : ℕ
  pub public_key_pem : Text
  pub last_seen : ℕ
  pub is_verified : Bool

-- What the two callbacks are told.
pub data Notice : Type 0 where
  discovered : PeerInfo → Notice
  lost : Text → Notice

-- The members that its handlers use; the notices are listed with the last one in front.
pub record PeerDiscovery : Type 0 where
  pub node_id : Text
  pub peer_timeout_ms : ℕ
  pub has_socket : Bool
  pub peers : Dict Text PeerInfo
  pub notices : List Notice

-- The name, the address and the port of a payload; the address is not used.
unfoldable pub parse_payload : Text → Option (Text × ℕ)
unfolding cut stoi
parse_payload payload = elim (cut payload) [
  | none ↦ none
  | some (node_id, rest) ↦ elim (cut rest) [
    | none ↦ none
    | some (ip, port_text) ↦ elim (stoi port_text) [
      | none ↦ none
      | some (port, _) ↦ some (node_id, to_uint16 port)
    ]
  ]
]

-- A peer that is heard of at an address.
unfoldable pub note_peer : ℕ → Text → Text → ℕ → PeerDiscovery → PeerDiscovery
note_peer now src_ip node_id port d = elim (lookup node_id d.peers) [
  | none ↦
      let peer : PeerInfo = record {
        node_id = node_id;
        ip = src_ip;
        port = port;
        public_key_pem = [];
        last_seen = now;
        is_verified = false;
      } in
      record d { peers = insert node_id peer d.peers; notices = Notice.discovered peer ∷ d.notices }
  | some peer ↦ record d {
    peers = insert node_id (record peer { last_seen = now; ip = src_ip; port = port }) d.peers;
  }
]

unfoldable pub handle_incoming_beacon : ℕ → Text → Text → PeerDiscovery → PeerDiscovery × Bool
unfolding parse_payload note_peer
handle_incoming_beacon now src_ip payload d = elim (parse_payload payload) [
  | none ↦ (d, false)
  | some (node_id, port) ↦
      if text_eq node_id d.node_id then (d, false) else (note_peer now src_ip node_id port d, true)
]

-- Not heard of for longer than the limit.
abbrev pub is_stale : ℕ → PeerDiscovery → PeerInfo → Bool
is_stale now d peer = ltb d.peer_timeout_ms ((now - peer.last_seen) / 1000000)

-- The peers that stay, and the names of those that are lost.
unfoldable pub partition_stale :
    (PeerInfo → Bool) → Dict Text PeerInfo → Dict Text PeerInfo × List Text
partition_stale stale [] = ([], [])
partition_stale stale ((id, peer) ∷ peers) =
    let (kept, gone) = partition_stale stale peers in
    if stale peer then (kept, id ∷ gone) else ((id, peer) ∷ kept, gone)

unfoldable pub tell_lost : List Text → List Notice → List Notice
tell_lost [] notices = notices
tell_lost (id ∷ ids) notices = tell_lost ids (Notice.lost id ∷ notices)

unfoldable pub cleanup_stale_peers : ℕ → PeerDiscovery → PeerDiscovery
unfolding partition_stale tell_lost
cleanup_stale_peers now d =
    let (kept, gone) = partition_stale (is_stale now d) d.peers in
    record d { peers = kept; notices = tell_lost gone d.notices }

unfoldable pub get_active_peers : PeerDiscovery → List PeerInfo
get_active_peers d = map (λ entry. entry.1) d.peers

unfoldable pub get_peer : Text → PeerDiscovery → Option PeerInfo
get_peer node_id d = lookup node_id d.peers

unfoldable pub announcement : Text → Text → ℕ → Text
announcement node_id ip port = piped node_id (piped ip (to_text port))

-- Whether the payload was sent, by what `sendto` returns for it, if it is not an error.
unfoldable pub announce_peer : (Text → Option ℕ) → PeerInfo → PeerDiscovery → Bool
unfolding announcement
announce_peer sendto peer d =
    let payload = announcement d.node_id peer.ip peer.port in
    if not d.has_socket
    then false
    else elim (sendto payload) [ none ↦ false | some sent ↦ sent == length payload ]

unfoldable pub verify_peer : Text → Text → PeerDiscovery → PeerDiscovery × Bool
verify_peer node_id public_key_pem d = elim (lookup node_id d.peers) [
  | none ↦ (d, false)
  | some peer ↦ (
    record d {
      peers =
          insert node_id (record peer { public_key_pem = public_key_pem; is_verified = true })
            d.peers;
    },
    true,
  )
]
