-- ===== src/Mesh/Histories/Discovery.antt =====
-- Discovery in consensus/MeshNode.cpp as histories of calls of the consensus and of the peer manager.
use neuro_mesh.Prelude.{
  ℕ, ◌/◌, refl, Bool, not, ◌&&◌, ◌||◌, Option, none, some, List, [], ◌∷◌, Text, codes, text_eq,
  is_empty, if◌then◌else◌, ltb, length, if_intro, option_elim,
}
use neuro_mesh.Prelude.Int.{ℤ, pos}
use neuro_mesh.Prelude.Search.{split_string, starts_with}
use neuro_mesh.Enforcer.Addresses.{register_peer_ip, register_peer_port}
use neuro_mesh.Pbft.Registry
use neuro_mesh.Peers.Calls as PeerCalls
use neuro_mesh.Peers.Rates.{check_rate_limit}
use neuro_mesh.Peers.Registry.{add_peer, has_peer, get_peer, get_all_peers}
use neuro_mesh.Peers.Trust.{confirm_path, verify_tls_cert}
use neuro_mesh.Peers.Types.{PeerManager, path_beacon}
use neuro_mesh.Mesh.Types.{MeshNode, World, Output, give}
use neuro_mesh.Mesh.Wire.{c_string, decode_or_empty}
use neuro_mesh.Mesh.Announce.{tell_enforcer, register_confirmed, is_signed}
use neuro_mesh.Mesh.Pex.{
  parse_entry, pex_entries, pex_text, add_entry, add_entries, is_other_ip, perform_pex_handshake,
  accept_entries, process_pex,
}
use neuro_mesh.Mesh.Beacon.{
  Beacon, parse_beacon, signed_beacon, is_recent, is_positive, to_uint16, send_to_seeds,
  send_discovery_beacon, pin_certificate, hear_again, trust_certificate, queue_connect, tell_port,
  welcome, admit_beacon, accept_beacon, process_discovery_beacon,
}
use neuro_mesh.Mesh.Vote.{token}
use neuro_mesh.Mesh.Gossip.{
  parse_gossip, gossip_passes, gossip_event_json, gossip_telemetry, process_telemetry_gossip,
  receive_discovery,
}
use neuro_mesh.Mesh.Histories.Votes.{PbftLater, PeersLater, Later, push-Later}
use neuro_mesh.Mesh.Histories.Packets.{tell_enforcer-Later, register_confirmed-Later}

module _ (w : World) (m : MeshNode) where
  add_entry-Later : (entry : Text) (n : MeshNode) → Later w m n → Later w m (add_entry w entry n).0
  unfolding add_entry PeerCalls.perform
  add_entry-Later entry n (pbft, peers) =
      option_elim (λ (r : MeshNode × Option (Text × Text × ℤ)). Later w m r.0) (parse_entry entry)
        (λ nothing. (pbft, peers))
        (λ found e.
          if_intro (λ (r : MeshNode × Option (Text × Text × ℤ)). Later w m r.0)
            (text_eq found.0 n.node_id) (pbft, peers)
            (
              pbft,
              PeersLater.next _ _
                  (PeerCalls.Call.add (w.now n.outputs) found.0 found.1 found.2 (pos 0) []) peers
                  refl,
            ))

  add_entries-Later :
      (entries : List Text) (n : MeshNode) → Later w m n → Later w m (add_entries w entries n)
  unfolding add_entries
  add_entries-Later [] n before = before
  add_entries-Later (entry ∷ entries) n before =
      add_entries-Later entries (add_entry w entry n).0 (add_entry-Later entry n before)

  pex_handshake-Later :
      (ip : Text) (port : ℤ) (id : Text) (n : MeshNode)
      → Later w m n
      → Later w m (perform_pex_handshake w ip port id n).0
  unfolding perform_pex_handshake
  pex_handshake-Later ip port id n before =
      let hello : Text = pex_text n.node_id (get_all_peers w.platform n.peers) in
      let greeted : MeshNode = give (Output.pex_hello ip port hello) n in
      let P : MeshNode × Bool → Type 0 = λ r. Later w m r.0 in
      if_intro P (is_other_ip w ip id n) before (
        option_elim P (w.pex_answer greeted.outputs ip port) (λ e. before)
          (λ response e.
            option_elim P (pex_entries (c_string response)) (λ e. before)
              (λ entries e. add_entries-Later entries greeted before)))

  accept_entries-Later :
      (entries : List Text) (n : MeshNode) → Later w m n → Later w m (accept_entries w entries n)
  unfolding accept_entries
  accept_entries-Later [] n before = before
  accept_entries-Later (entry ∷ entries) n before =
      let added = add_entry w entry n in
      let added-Later = add_entry-Later entry n before in
      accept_entries-Later entries _ (
        option_elim (Later w m) added.1 (λ e. added-Later)
          (λ found e. pex_handshake-Later found.1 found.2 found.0 added.0 added-Later))

  pub process_pex-Later :
      (buffer : Text) (n : MeshNode) → Later w m n → Later w m (process_pex w buffer n)
  unfolding process_pex
  process_pex-Later buffer n before =
      let reply : Text = pex_text n.node_id (get_all_peers w.platform n.peers) in
      option_elim (Later w m) (pex_entries (c_string buffer)) (λ e. before)
        (λ entries e. accept_entries-Later entries (give (Output.pex_reply reply) n) before)

  send_to_seeds-Later :
      (payload : Text) (seeds : List (Text × ℤ)) (n : MeshNode)
      → Later w m n
      → Later w m (send_to_seeds w payload seeds n)
  unfolding send_to_seeds
  send_to_seeds-Later payload [] n before = before
  send_to_seeds-Later payload ((ip, port) ∷ seeds) n before =
      send_to_seeds-Later payload seeds (give (Output.unicast ip port payload) n) before

  welcome-Later :
      (b : Beacon) (ip : Text) (dual : Bool) (n : MeshNode)
      → Later w m n
      → Later w m (welcome w b ip dual n)
  unfolding welcome queue_connect tell_port trust_certificate
  welcome-Later b ip dual n (pbft, peers) =
      let registered : MeshNode = record n {
        pbft = register_confirmed w.platform dual b.peer_id b.peer_pem n.pbft;
      } in
      let registered-Later : Later w m registered =
        (register_confirmed-Later w m dual b.peer_id b.peer_pem n.pbft pbft, peers) in
      let registering = dual && not (Registry.has_peer b.peer_id n.pbft) in
      let trusting : MeshNode = trust_certificate w registering b registered in
      let trusting-Later : Later w m trusting =
        if_intro (Later w m)
          (registering
            && not (is_empty b.b64_cert_pem)
            && n.has_transport
            && not (is_empty (decode_or_empty b.b64_cert_pem)))
          registered-Later registered-Later in
      let told : MeshNode = tell_enforcer (register_peer_ip w.host b.peer_id ip) trusting in
      let told-Later =
        tell_enforcer-Later w m (register_peer_ip w.host b.peer_id ip) trusting trusting-Later in
      let ported : MeshNode = tell_port w b told in
      let ported-Later : Later w m ported =
        if_intro (Later w m) (is_positive b.tcp_port)
          (tell_enforcer-Later w m (register_peer_port b.peer_id (to_uint16 b.tcp_port)) told
            told-Later)
          told-Later in
      let greeted : MeshNode =
        if has_peer b.peer_id ported.peers
        then (perform_pex_handshake w ip b.tcp_port b.peer_id ported).0
        else ported in
      let greeted-Later : Later w m greeted =
        if_intro (Later w m) (has_peer b.peer_id ported.peers)
          (pex_handshake-Later ip b.tcp_port b.peer_id ported ported-Later) ported-Later in
      if_intro (Later w m) (is_positive b.tls_port && greeted.has_transport) greeted-Later
        greeted-Later

  hear_again-Later :
      (now : ℕ) (b : Beacon) (ip : Text) (is_new : Bool) (p : PeerManager)
      → PeersLater w.platform m.peers p
      → PeersLater w.platform m.peers (hear_again w now b ip is_new p)
  unfolding hear_again PeerCalls.perform
  hear_again-Later now b ip is_new p before =
      let known : Text = (get_peer b.peer_id p).public_key_pem in
      if_intro (PeersLater w.platform m.peers)
        (is_new
          || (not (is_empty b.peer_pem) && not (is_empty known) && not (text_eq known b.peer_pem)))
        before
        (PeersLater.next p _
          (PeerCalls.Call.heartbeat now b.peer_id ip b.tcp_port b.tls_port b.peer_pem) before refl)

  admit_beacon-Later :
      (b : Beacon) (ip : Text) (pinned : PeerManager) (n : MeshNode)
      → PbftLater w.platform m.pbft n.pbft
      → PeersLater w.platform m.peers pinned
      → Later w m (admit_beacon w b ip pinned n)
  unfolding admit_beacon PeerCalls.perform
  admit_beacon-Later b ip pinned n pbft peers =
      let now = w.now n.outputs in
      let added = add_peer now b.peer_id ip b.tcp_port b.tls_port b.peer_pem pinned in
      let confirmed = confirm_path path_beacon b.peer_id b.peer_pem added.0 in
      let confirmed-Later : PeersLater w.platform m.peers confirmed.0 =
        PeersLater.next added.0 _ (PeerCalls.Call.confirm path_beacon b.peer_id b.peer_pem)
          (PeersLater.next pinned added.0
            (PeerCalls.Call.add now b.peer_id ip b.tcp_port b.tls_port b.peer_pem) peers refl)
          refl in
      let heard : MeshNode = record n { peers = hear_again w now b ip added.1 confirmed.0 } in
      let heard-Later : Later w m heard =
        (pbft, hear_again-Later now b ip added.1 confirmed.0 confirmed-Later) in
      if_intro (Later w m) confirmed.1.key_mismatch (pbft, confirmed-Later)
        (if_intro (Later w m) (added.1 || confirmed.1.dual_confirmed)
          (welcome-Later b ip confirmed.1.dual_confirmed heard heard-Later) heard-Later)

  accept_beacon-Later :
      (k : ℕ) (b : Beacon) (ip : Text) (n : MeshNode)
      → Later w m n
      → Later w m (accept_beacon w k b ip n)
  unfolding accept_beacon pin_certificate PeerCalls.perform
  accept_beacon-Later k b ip n (pbft, peers) =
      let now = w.now n.outputs in
      let Pins : Option PeerManager → Type 0 =
        λ o. Later w m (elim o [ none ↦ n | some pinned ↦ admit_beacon w b ip pinned n ]) in
      if_intro (Later w m)
        (is_signed w b.peer_pem (signed_beacon k b) b.raw_sig && is_recent (now / 1000) b.timestamp)
        (if_intro Pins (is_empty b.tls_fingerprint) (admit_beacon-Later b ip n.peers n pbft peers) (
          if_intro Pins (verify_tls_cert b.peer_id b.tls_fingerprint n.peers)
            (admit_beacon-Later b ip _ n pbft (
              PeersLater.next n.peers _ (PeerCalls.Call.pin now b.peer_id b.tls_fingerprint) peers
                refl))
            (pbft, peers)))
        (pbft, peers)

  -- What comes after a packet, where that is defined.
  abbrev pub LaterIfSome : Option MeshNode → Type 0
  LaterIfSome none = Unit
  LaterIfSome (some n) = Later w m n

  discovery_beacon-Later :
      (msg ip : Text) (n : MeshNode)
      → Later w m n
      → LaterIfSome (process_discovery_beacon w msg ip n)
  unfolding process_discovery_beacon
  discovery_beacon-Later msg ip n before =
      let tokens : List Text = split_string b'|' msg in
      if_intro LaterIfSome (ltb (length tokens) 1) tt (
        if_intro LaterIfSome (not (text_eq (token 0 tokens) (codes "DISCOVERY"))) before (
          option_elim LaterIfSome (parse_beacon n.node_id tokens) (λ e. before)
            (λ b e. accept_beacon-Later (length tokens) b ip n before)))

  telemetry_gossip-Later :
      (msg : Text) (n : MeshNode) → Later w m n → Later w m (process_telemetry_gossip w msg n)
  unfolding process_telemetry_gossip PeerCalls.perform
  telemetry_gossip-Later msg n (pbft, peers) =
      option_elim (Later w m) (parse_gossip msg) (λ e. (pbft, peers))
        (λ found e.
          if_intro (Later w m)
            (is_empty found.0 || text_eq found.0 n.node_id || ltb 64 (length found.0)) (pbft, peers)
            (if_intro (Later w m) (gossip_passes w found.0 found.1 found.2 n)
              (push-Later w m found.2 _ (
                pbft,
                PeersLater.next _ _ (PeerCalls.Call.peer_telemetry found.0 found.2) peers refl,
              ))
              (pbft, peers)))

  pub receive_discovery-Later :
      (buffer ip : Text) (n : MeshNode)
      → Later w m n
      → LaterIfSome (receive_discovery w buffer ip n)
  unfolding receive_discovery PeerCalls.perform
  receive_discovery-Later buffer ip n (pbft, peers) =
      let limited = check_rate_limit w.platform (w.now n.outputs) ip n.peers in
      let counted : MeshNode = record n { peers = limited.0 } in
      let counted-Later : Later w m counted =
        (pbft, PeersLater.next _ _ (PeerCalls.Call.rate (w.now n.outputs) ip) peers refl) in
      if_intro LaterIfSome (is_empty buffer) (pbft, peers)
        (if_intro LaterIfSome (not limited.1) counted-Later (
          if_intro LaterIfSome (starts_with (codes "TELEMETRY|") (c_string buffer))
            (telemetry_gossip-Later (c_string buffer) counted counted-Later)
            (discovery_beacon-Later (c_string buffer) ip counted counted-Later)))

  pub gossip_event-Later :
      (json : Text) (n : MeshNode) → Later w m n → Later w m (gossip_event_json w json n)
  unfolding gossip_event_json
  gossip_event-Later json n before = push-Later w m json _ before

  pub gossip_telemetry-Later :
      (json : Text) (n : MeshNode) → Later w m n → Later w m (gossip_telemetry w json n)
  unfolding gossip_telemetry PeerCalls.perform
  gossip_telemetry-Later json n (pbft, peers) =
      gossip_event-Later json _
        (pbft, PeersLater.next _ _ (PeerCalls.Call.own_telemetry json) peers refl)

  pub send_discovery_beacon-Later :
      (n : MeshNode) → Later w m n → Later w m (send_discovery_beacon w n)
  unfolding send_discovery_beacon
  send_discovery_beacon-Later n before = send_to_seeds-Later _ n.seed_peers _ before
