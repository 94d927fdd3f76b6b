-- ===== src/Mesh/Upkeep.antt =====
-- Upkeep in consensus/MeshNode.cpp: stale peers, stalled rounds, the bans that the consensus asks for,
-- TLS connections, seed peers and keys.
pub mod Views
use neuro_mesh.Prelude.{
  ℕ, ◌+◌, ◌-◌, ◌/◌, Bool, true, false, not, ◌&&◌, ◌||◌, Option, none, some, List, [], ◌∷◌, ◌++◌,
  Text, codes, if◌then◌else◌, ltb, ◌==◌,
}
use neuro_mesh.Prelude.Int.{ℤ, pos, negsuc}
use neuro_mesh.Enforcer.Types.{Host}
use neuro_mesh.Pbft.Registry.{
  prune_peer, needs_view_change, advance_view, is_banned, drain_recent_bans,
}
use neuro_mesh.Pbft.Types.{Platform, PbftConsensus}
use neuro_mesh.Peers.Registry.{
  get_stale_peers, get_peer_tls_fd, set_peer_tls_fd, remove_peer, has_peer, get_all_peer_ids,
  peer_count,
}
use neuro_mesh.Peers.Trust.{is_peer_pre_provisioned}
use neuro_mesh.Peers.Trust
use neuro_mesh.Mesh.Types.{MeshNode, World, Output, TlsConnectTask, give}
use neuro_mesh.Mesh.Consensus.{propose_ban}
use neuro_mesh.Mesh.Beacon.{send_discovery_beacon}

abbrev pub liveness_evidence : Text
liveness_evidence = codes "{\"liveness\":\"check\"}"

-- The transport closes a connection, if there is a transport.
unfoldable pub close_fd : ℕ → MeshNode → MeshNode
close_fd fd m = if m.has_transport then give (Output.close fd) m else m

-- The connection of a stale peer is closed, and the peer is forgotten.
unfoldable pub prune_one : Text → MeshNode → MeshNode
unfolding close_fd remove_peer is_peer_pre_provisioned prune_peer
prune_one id m =
    let closed : MeshNode = elim (get_peer_tls_fd id m.peers) [
      | none ↦ m
      | some fd ↦ close_fd fd m
    ] in
    record closed {
      peers = remove_peer id m.peers;
      pbft = if is_peer_pre_provisioned id m.peers then m.pbft else prune_peer id m.pbft;
    }

unfoldable pub prune_all : List Text → MeshNode → MeshNode
unfolding prune_one
prune_all [] m = m
prune_all (id ∷ ids) m = prune_all ids (prune_one id m)

unfoldable pub set_seeds : Host → (Text → Text) → List (Text × ℤ) → MeshNode → MeshNode
set_seeds host resolve_host [] m = m
set_seeds host resolve_host ((name, port) ∷ seeds) m =
    set_seeds host resolve_host seeds (elim (host.inet_pton4 (resolve_host name)) [
      | none ↦ m
      | some _ ↦ record m { seed_peers = m.seed_peers ++ (resolve_host name, port) ∷ [] }
    ])

unfoldable pub node_peer_count : MeshNode → ℕ
node_peer_count m = peer_count m.peers + 1

unfoldable pub unpin_peer_key : Text → MeshNode → MeshNode
unpin_peer_key node_id m =
    if has_peer node_id m.peers
    then record m { peers = Trust.unpin_peer_key node_id m.peers }
    else m

module _ (w : World) where
  open w use {platform, host}

  unfoldable pub prune_stale_peers : MeshNode → MeshNode
  unfolding prune_all get_stale_peers
  prune_stale_peers m = prune_all (get_stale_peers platform (w.now m.outputs) m.peers) m

  -- The loop of `liveness_monitor` over the peers.
  unfoldable pub check_views : List Text → MeshNode → MeshNode
  unfolding needs_view_change advance_view
  check_views [] m = m
  check_views (peer_id ∷ peer_ids) m = check_views peer_ids (
      if needs_view_change platform (w.now m.outputs) liveness_evidence peer_id m.pbft
      then record m { pbft = advance_view m.pbft }
      else m)

  -- What `liveness_monitor` does every `HEARTBEAT_SEC` seconds.
  unfoldable pub monitor : MeshNode → MeshNode
  unfolding prune_stale_peers check_views
  monitor m =
      let pruned = prune_stale_peers m in
      check_views (get_all_peer_ids platform pruned.peers) pruned

  unfoldable pub propose_bans : List Text → MeshNode → MeshNode
  unfolding propose_ban
  propose_bans [] m = m
  propose_bans (id ∷ ids) m = propose_bans ids (propose_ban w id (codes "local_auto_ban") m).0

  -- One round of `discovery_beacon_loop`.
  unfoldable pub heartbeat : MeshNode → MeshNode
  unfolding drain_recent_bans propose_bans send_discovery_beacon
  heartbeat m =
      let (drained, banned) = drain_recent_bans platform m.pbft in
      send_discovery_beacon w (propose_bans banned (record m { pbft = drained }))

  unfoldable pub is_targeted_recently : MeshNode → Bool
  is_targeted_recently m =
      if m.last_targeted_at == 0
      then false
      else ltb ((w.now m.outputs - m.last_targeted_at) / 1000000000) 12

  unfoldable pub set_seed_peers : List (Text × ℤ) → MeshNode → MeshNode
  unfolding set_seeds
  set_seed_peers seeds m = set_seeds host w.resolve_host seeds m

  unfoldable pub connect_tls_to_peer : Text → Text → ℤ → MeshNode → MeshNode × Bool
  connect_tls_to_peer peer_id ip port m =
      if not m.has_transport then (m, false) else elim (get_peer_tls_fd peer_id m.peers) [
        | some fd ↦ (m, true)
        | none ↦ elim (w.connects m.outputs ip port) [
          | none ↦ (m, false)
          | some fd ↦ (record m { peers = set_peer_tls_fd peer_id (pos fd) m.peers }, true)
        ]
      ]

  unfoldable pub disconnect_tls_peer : Text → MeshNode → MeshNode
  unfolding close_fd
  disconnect_tls_peer peer_id m = elim (get_peer_tls_fd peer_id m.peers) [
    | none ↦ m
    | some fd ↦ close_fd fd (record m { peers = set_peer_tls_fd peer_id (negsuc 0) m.peers })
  ]

  -- One task of `tls_worker_loop`.
  unfoldable pub work : MeshNode → MeshNode
  unfolding connect_tls_to_peer
  work m = elim m.tls_connect_queue [
    | [] ↦ m
    | task ∷ tasks ↦
        (connect_tls_to_peer task.peer_id task.ip task.port
          (record m { tls_connect_queue = tasks })).0
  ]
