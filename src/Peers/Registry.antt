-- ===== src/Peers/Registry.antt =====
-- The peer registry, the cooldowns, the telemetry and the known addresses of
-- consensus/PeerManager.cpp.
use neuro_mesh.Prelude.{
  ℕ, Bool, true, false, not, ◌&&◌, Option, none, some, List, [], ◌∷◌, ◌++◌, map, Text, codes,
  text_key, is_empty, if◌then◌else◌, ltb, length, keep_if,
}
use neuro_mesh.Prelude.Dict.{lookup, has_key, insert, erase, contains, add}
use neuro_mesh.Prelude.Int.{ℤ, pos, negsuc}
use neuro_mesh.Pbft.Registry.{register_peer_key}
use neuro_mesh.Pbft.Types.{Platform, PbftConsensus, elapsed_seconds}
use neuro_mesh.Peers.Types.{
  PeerEntry, PeerManager, new_peer_entry, consensus_cooldown_sec, liveness_sec, walk_map,
}

unfoldable pub new_peer : ℕ → Text → Text → ℤ → ℤ → Text → PeerEntry
new_peer now peer_id ip tcp_port tls_port public_key_pem = record new_peer_entry {
  node_id = peer_id;
  ip = ip;
  tcp_port = tcp_port;
  tls_port = tls_port;
  public_key_pem = public_key_pem;
  last_heartbeat = now;
  verified = not (is_empty public_key_pem);
}

unfoldable pub add_peer : ℕ → Text → Text → ℤ → ℤ → Text → PeerManager → PeerManager × Bool
unfolding new_peer
add_peer now peer_id ip tcp_port tls_port public_key_pem p =
    if has_key peer_id p.peers then (p, false) else (
      record p {
        peers = insert peer_id (new_peer now peer_id ip tcp_port tls_port public_key_pem) p.peers;
      },
      true,
    )

-- A key that is missing is filled in; `adopt_key` is this step of several calls.
unfoldable pub adopt_key : Text → PeerEntry → PeerEntry
adopt_key public_key_pem entry =
    if not (is_empty public_key_pem) && is_empty entry.public_key_pem
    then record entry { public_key_pem = public_key_pem; verified = true }
    else entry

unfoldable pub update_peer_heartbeat :
    ℕ → Text → Text → ℤ → ℤ → Text → PeerManager → PeerManager × Bool
unfolding adopt_key
update_peer_heartbeat now peer_id ip tcp_port tls_port public_key_pem p =
    elim (lookup peer_id p.peers) [
      | none ↦ (p, false)
      | some entry ↦
          let seen : PeerEntry = record entry {
            last_heartbeat = now;
            ip = ip;
            tcp_port = tcp_port;
            tls_port = tls_port;
          } in
          (record p { peers = insert peer_id (adopt_key public_key_pem seen) p.peers }, true)
    ]

unfoldable pub has_peer : Text → PeerManager → Bool
has_peer peer_id p = has_key peer_id p.peers

unfoldable pub get_peer : Text → PeerManager → PeerEntry
get_peer peer_id p = elim (lookup peer_id p.peers) [ none ↦ new_peer_entry | some entry ↦ entry ]

unfoldable pub get_all_peers : Platform → PeerManager → List PeerEntry
get_all_peers env p = map (λ peer. peer.1) (walk_map env p.peers)

unfoldable pub get_all_peer_ids : Platform → PeerManager → List Text
get_all_peer_ids env p = map (λ peer. peer.0) (walk_map env p.peers)

unfoldable pub peer_count : PeerManager → ℕ
peer_count p = length p.peers

unfoldable pub remove_peer : Text → PeerManager → PeerManager
remove_peer peer_id p = record p { peers = erase peer_id p.peers }

-- The peers that have been silent for more than `liveness_sec` whole seconds.
unfoldable pub get_stale_peers : Platform → ℕ → PeerManager → List Text
get_stale_peers env now p =
    map (λ peer. peer.0)
      (keep_if
        (λ (peer : Text × PeerEntry). ltb liveness_sec (elapsed_seconds now peer.1.last_heartbeat))
        (walk_map env p.peers))

-- `some fd` where the call returns true and sets its argument.
unfoldable pub get_peer_tls_fd : Text → PeerManager → Option ℕ
get_peer_tls_fd peer_id p = elim (lookup peer_id p.peers) [
  | none ↦ none
  | some entry ↦ elim entry.tls_fd [ pos fd ↦ some fd | negsuc _ ↦ none ]
]

unfoldable pub set_peer_tls_fd : Text → ℤ → PeerManager → PeerManager
set_peer_tls_fd peer_id fd p = elim (lookup peer_id p.peers) [
  | none ↦ p
  | some entry ↦ record p { peers = insert peer_id (record entry { tls_fd = fd }) p.peers }
]

unfoldable pub get_peer_key : Text → PeerManager → Text
get_peer_key peer_id p = elim (lookup peer_id p.peers) [
  | none ↦ []
  | some entry ↦ entry.public_key_pem
]

unfoldable pub is_peer_verified : Text → PeerManager → Bool
is_peer_verified peer_id p = elim (lookup peer_id p.peers) [
  | none ↦ false
  | some entry ↦ entry.verified
]

unfoldable pub is_on_cooldown : ℕ → Text → PeerManager → Bool
is_on_cooldown now target_id p = elim (lookup target_id p.last_consensus) [
  | none ↦ false
  | some since ↦ ltb (elapsed_seconds now since) consensus_cooldown_sec
]

unfoldable pub set_cooldown : ℕ → Text → PeerManager → PeerManager
set_cooldown now target_id p = record p { last_consensus = insert target_id now p.last_consensus }

unfoldable pub set_own_telemetry : Text → PeerManager → PeerManager
set_own_telemetry json p = record p { own_telemetry = json }

unfoldable pub get_own_telemetry : PeerManager → Text
get_own_telemetry p = p.own_telemetry

unfoldable pub set_peer_telemetry : Text → Text → PeerManager → PeerManager
set_peer_telemetry peer_id json p = record p {
  peer_telemetry = insert peer_id json p.peer_telemetry;
}

-- The texts with a comma before each but the first.
unfoldable pub join_telemetry : Bool → List (Text × Text) → Text
join_telemetry first [] = []
join_telemetry first ((id, json) ∷ rest) =
    (if first then [] else codes ",") ++ json ++ join_telemetry false rest

unfoldable pub get_all_telemetry : Platform → PeerManager → Text
unfolding join_telemetry
get_all_telemetry env p =
    codes "["
    ++ p.own_telemetry
    ++ join_telemetry (is_empty p.own_telemetry) (walk_map env p.peer_telemetry)
    ++ codes "]"

unfoldable pub is_known_ip : Text → PeerManager → Bool
is_known_ip ip p = contains ip p.known_peer_ips

unfoldable pub add_known_ip : Text → PeerManager → PeerManager
add_known_ip ip p = record p { known_peer_ips = add ip p.known_peer_ips }

-- The loop of `register_all_with_pbft`: only peers with a key are registered.
unfoldable pub register_entries : Platform → List (Text × PeerEntry) → PbftConsensus → PbftConsensus
unfolding register_peer_key
register_entries env [] pbft = pbft
register_entries env ((id, entry) ∷ rest) pbft = register_entries env rest (
    if is_empty entry.public_key_pem
    then pbft
    else register_peer_key env id entry.public_key_pem pbft)

unfoldable pub register_all_with_pbft : Platform → PeerManager → PbftConsensus → PbftConsensus
unfolding register_entries
register_all_with_pbft env p pbft = register_entries env (walk_map env p.peers) pbft

unfoldable pub register_one_with_pbft :
    Platform → Text → PeerManager → PbftConsensus → PbftConsensus
unfolding register_peer_key
register_one_with_pbft env peer_id p pbft = elim (lookup peer_id p.peers) [
  | none ↦ pbft
  | some entry ↦
      if is_empty entry.public_key_pem
      then pbft
      else register_peer_key env peer_id entry.public_key_pem pbft
]
