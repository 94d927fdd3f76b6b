-- ===== src/Mesh/Histories/Events.antt =====
-- All events of consensus/MeshNode.cpp as histories of calls of the consensus and of the peer manager,
-- and the invariants of both in a node.
use neuro_mesh.Prelude.{
  ◌≡◌, refl, sym, subst, Bool, not, Option, none, some, List, [], ◌∷◌, Text, codes, if_intro,
  option_elim,
}
use neuro_mesh.Prelude.Int.{ℤ, pos, negsuc}
use neuro_mesh.Pbft.Calls
use neuro_mesh.Pbft.Registry.{needs_view_change, drain_recent_bans}
use neuro_mesh.Peers.Calls as PeerCalls
use neuro_mesh.Peers.Registry.{
  get_peer_tls_fd, set_peer_tls_fd, get_stale_peers, get_all_peer_ids, has_peer,
}
use neuro_mesh.Peers.Trust.{is_peer_pre_provisioned}
use neuro_mesh.Mesh.Types.{MeshNode, World, TlsConnectTask}
use neuro_mesh.Mesh.Start.{Event, handle, handle_all}
use neuro_mesh.Mesh.Consensus.{propose_ban}
use neuro_mesh.Mesh.Upkeep.{
  liveness_evidence, prune_one, prune_all, prune_stale_peers, check_views, monitor, propose_bans,
  heartbeat, set_seeds, set_seed_peers, close_fd, connect_tls_to_peer, disconnect_tls_peer, work,
  unpin_peer_key,
}
use neuro_mesh.Mesh.Histories.Votes.{
  PbftLater, PeersLater, Later, initiate_consensus-Later, propose_ban-Later,
}
use neuro_mesh.Mesh.Histories.Packets.{process_message-Later}
use neuro_mesh.Mesh.Histories.Discovery.{
  LaterIfSome, process_pex-Later, receive_discovery-Later, gossip_event-Later,
  gossip_telemetry-Later, send_discovery_beacon-Later,
}

module _ (w : World) (m : MeshNode) where
  prune_one-Later : (id : Text) (n : MeshNode) → Later w m n → Later w m (prune_one id n)
  unfolding prune_one Calls.perform PeerCalls.perform
  prune_one-Later id n (pbft, peers) = (
    if_intro (PbftLater w.platform m.pbft) (is_peer_pre_provisioned id n.peers) pbft
        (PbftLater.next _ _ (Calls.Call.prune id) refl pbft refl),
    PeersLater.next _ _ (PeerCalls.Call.remove id) peers refl,
  )

  prune_all-Later : (ids : List Text) (n : MeshNode) → Later w m n → Later w m (prune_all ids n)
  unfolding prune_all
  prune_all-Later [] n before = before
  prune_all-Later (id ∷ ids) n before =
      prune_all-Later ids (prune_one id n) (prune_one-Later id n before)

  check_views-Later :
      (ids : List Text) (n : MeshNode) → Later w m n → Later w m (check_views w ids n)
  unfolding check_views Calls.perform
  check_views-Later [] n before = before
  check_views-Later (id ∷ ids) n before = check_views-Later ids _ (
      if_intro (Later w m)
        (needs_view_change w.platform (w.now n.outputs) liveness_evidence id n.pbft)
        (PbftLater.next _ _ Calls.Call.next_view refl before.0 refl, before.1) before)

  monitor-Later : (n : MeshNode) → Later w m n → Later w m (monitor w n)
  unfolding monitor prune_stale_peers
  monitor-Later n before =
      let stale = get_stale_peers w.platform (w.now n.outputs) n.peers in
      let pruned : MeshNode = prune_all stale n in
      check_views-Later (get_all_peer_ids w.platform pruned.peers) pruned
        (prune_all-Later stale n before)

  propose_bans-Later :
      (ids : List Text) (n : MeshNode) → Later w m n → Later w m (propose_bans w ids n)
  unfolding propose_bans
  propose_bans-Later [] n before = before
  propose_bans-Later (id ∷ ids) n before =
      let reason : Text = codes "local_auto_ban" in
      propose_bans-Later ids (propose_ban w id reason n).0
        (propose_ban-Later w m id reason n before)

  heartbeat-Later : (n : MeshNode) → Later w m n → Later w m (heartbeat w n)
  unfolding heartbeat Calls.perform
  heartbeat-Later n (pbft, peers) =
      let drained = drain_recent_bans w.platform n.pbft in
      let start : MeshNode = record n { pbft = drained.0 } in
      send_discovery_beacon-Later w m (propose_bans w drained.1 start) (
        propose_bans-Later drained.1 start
          (PbftLater.next _ _ Calls.Call.drain refl pbft refl, peers))

  set_seeds-Later :
      (seeds : List (Text × ℤ)) (n : MeshNode)
      → Later w m n
      → Later w m (set_seeds w.host w.resolve_host seeds n)
  unfolding set_seeds
  set_seeds-Later [] n before = before
  set_seeds-Later ((name, port) ∷ seeds) n before = set_seeds-Later seeds _ (
      option_elim (Later w m) (w.host.inet_pton4 (w.resolve_host name)) (λ e. before)
        (λ address e. before))

  connect-Later :
      (id ip : Text) (port : ℤ) (n : MeshNode)
      → Later w m n
      → Later w m (connect_tls_to_peer w id ip port n).0
  unfolding connect_tls_to_peer PeerCalls.perform
  connect-Later id ip port n (pbft, peers) =
      let P : MeshNode × Bool → Type 0 = λ r. Later w m r.0 in
      if_intro P (not n.has_transport) (pbft, peers)
        (option_elim P (get_peer_tls_fd id n.peers)
          (λ e.
            option_elim P (w.connects n.outputs ip port) (λ e. (pbft, peers))
              (λ fd e.
                (pbft, PeersLater.next _ _ (PeerCalls.Call.set_tls_fd id (pos fd)) peers refl)))
          (λ fd e. (pbft, peers)))

  work-Later :
      (queue : List TlsConnectTask) (n : MeshNode)
      → n.tls_connect_queue ≡ queue
      → Later w m n
      → Later w m (work w n)
  unfolding work
  work-Later [] n e before =
      subst
        (λ (queue : List TlsConnectTask). Later w m (elim queue [
          | [] ↦ n
          | task ∷ tasks ↦
              (connect_tls_to_peer w task.peer_id task.ip task.port
                (record n { tls_connect_queue = tasks })).0
        ]))
        (sym e) before
  work-Later (task ∷ tasks) n e before =
      subst
        (λ (queue : List TlsConnectTask). Later w m (elim queue [
          | [] ↦ n
          | task ∷ tasks ↦
              (connect_tls_to_peer w task.peer_id task.ip task.port
                (record n { tls_connect_queue = tasks })).0
        ]))
        (sym e)
        (connect-Later task.peer_id task.ip task.port (record n { tls_connect_queue = tasks })
          before)

  disconnect-Later :
      (id : Text) (n : MeshNode) → Later w m n → Later w m (disconnect_tls_peer w id n)
  unfolding disconnect_tls_peer close_fd PeerCalls.perform
  disconnect-Later id n (pbft, peers) =
      let forgotten : MeshNode = record n { peers = set_peer_tls_fd id (negsuc 0) n.peers } in
      let forgotten-Later : Later w m forgotten =
        (pbft, PeersLater.next _ _ (PeerCalls.Call.set_tls_fd id (negsuc 0)) peers refl) in
      option_elim (Later w m) (get_peer_tls_fd id n.peers) (λ e. (pbft, peers))
        (λ fd e. if_intro (Later w m) n.has_transport forgotten-Later forgotten-Later)

  unpin-Later : (id : Text) (n : MeshNode) → Later w m n → Later w m (unpin_peer_key id n)
  unfolding unpin_peer_key PeerCalls.perform
  unpin-Later id n (pbft, peers) =
      if_intro (Later w m) (has_peer id n.peers)
        (pbft, PeersLater.next _ _ (PeerCalls.Call.unpin id) peers refl) (pbft, peers)

  handle-Later : (event : Event) (n : MeshNode) → Later w m n → LaterIfSome w m (handle w event n)
  unfolding handle set_seed_peers
  handle-Later (Event.message msg ip) n before = process_message-Later w m msg ip n before
  handle-Later (Event.packet buffer ip) n before = receive_discovery-Later w m buffer ip n before
  handle-Later (Event.pex buffer) n before = process_pex-Later w m buffer n before
  handle-Later (Event.consensus target evidence) n before =
      initiate_consensus-Later w m target evidence n before
  handle-Later (Event.ban target reason) n before = propose_ban-Later w m target reason n before
  handle-Later (Event.telemetry json) n before = gossip_telemetry-Later w m json n before
  handle-Later (Event.event_json json) n before = gossip_event-Later w m json n before
  handle-Later Event.monitoring n before = monitor-Later n before
  handle-Later Event.beating n before = heartbeat-Later n before
  handle-Later Event.connecting n before = work-Later n.tls_connect_queue n refl before
  handle-Later (Event.disconnecting id) n before = disconnect-Later id n before
  handle-Later (Event.unpinning id) n before = unpin-Later id n before
  handle-Later (Event.seeding seeds) n before = set_seeds-Later seeds n before

  pub handle_all-Later :
      (events : List Event) (n : MeshNode) → Later w m n → LaterIfSome w m (handle_all w events n)
  unfolding handle_all
  handle_all-Later [] n before = before
  handle_all-Later (event ∷ events) n before =
      let Step : Option MeshNode → Type 0 = λ o.
        LaterIfSome w m o
        → LaterIfSome w m (elim o [ none ↦ none | some next ↦ handle_all w events next ]) in
      let by_cases : (o : Option MeshNode) → Step o = λ o. elim o as (λ o. Step o) [
        | none ↦ λ none_later. tt
        | some next ↦ λ later. handle_all-Later events next later
      ] in
      by_cases (handle w event n) (handle-Later event n before)
