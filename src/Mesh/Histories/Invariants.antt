-- ===== src/Mesh/Histories/Invariants.antt =====
-- What the histories of consensus/MeshNode.cpp keep of the consensus and of the peer manager.
use neuro_mesh.Prelude.{
  ◌≡◌, ◌≤◌, refl, ap, sym, ◌∙◌, subst, true, Option, some, List, [], ◌∷◌, ◌++◌, Text, length,
  option_elim, text_key,
}
use neuro_mesh.Prelude.Dict.{contains}
use neuro_mesh.Prelude.Int.{pos}
use neuro_mesh.Prelude.Search.{split_string}
use neuro_mesh.Pbft.Calls
use neuro_mesh.Pbft.Calls.Bans.{run_banned}
use neuro_mesh.Pbft.Calls.Invariant.{IsValid}
use neuro_mesh.Pbft.Calls.Invariant.Histories.{run-init-IsValid}
use neuro_mesh.Pbft.Registry.{init, is_banned}
use neuro_mesh.Pbft.Types.{Platform, PbftConsensus}
use neuro_mesh.Peers.Bounds.Histories.{length-perform_all-rate_limits}
use neuro_mesh.Peers.Calls as PeerCalls
use neuro_mesh.Peers.Types.{PeerManager, new_peer_manager, rate_limit_map_cap}
use neuro_mesh.Mesh.Types.{MeshNode, World}
use neuro_mesh.Mesh.Start.{at_colon, provisioned_pem, provision, construct, Event, handle_all}
use neuro_mesh.Mesh.Histories.Votes.{PbftLater, PeersLater, Later}
use neuro_mesh.Mesh.Histories.Discovery.{LaterIfSome}
use neuro_mesh.Mesh.Histories.Events.{handle_all-Later}

run-last :
    (env : Platform) (calls : List Calls.Call) (call : Calls.Call) (p : PbftConsensus)
    → Calls.run env (calls ++ call ∷ []) p ≡ Calls.perform env call (Calls.run env calls p)
unfolding Calls.run
run-last env [] call p = refl
run-last env (c ∷ calls) call p = run-last env calls call (Calls.perform env c p)

perform_all-last :
    (env : Platform) (calls : List PeerCalls.Call) (call : PeerCalls.Call) (p : PeerManager)
    → PeerCalls.perform_all env (calls ++ call ∷ []) p
      ≡ PeerCalls.perform env call (PeerCalls.perform_all env calls p)
unfolding PeerCalls.perform_all
perform_all-last env [] call p = refl
perform_all-last env (c ∷ calls) call p =
    perform_all-last env calls call (PeerCalls.perform env c p)

-- A history of calls of the consensus that leads from one state to another.
abbrev pub PbftRun : Platform → PbftConsensus → PbftConsensus → Type 0
PbftRun env p q = (calls : List Calls.Call) × (Calls.run env calls p ≡ q)

abbrev pub PeersRun : Platform → PeerManager → PeerManager → Type 0
PeersRun env p q = (calls : List PeerCalls.Call) × (PeerCalls.perform_all env calls p ≡ q)

PbftRun-last :
    (env : Platform) (call : Calls.Call) (p q r : PbftConsensus)
    → r ≡ Calls.perform env call q
    → PbftRun env p q
    → PbftRun env p r
PbftRun-last env call p q r e (calls, reached) =
    (calls ++ call ∷ [], run-last env calls call p ∙ (ap (Calls.perform env call) reached ∙ sym e))

PbftLater-PbftRun : (env : Platform) (p q : PbftConsensus) → PbftLater env p q → PbftRun env p q
unfolding Calls.run Calls.perform
PbftLater-PbftRun env p _ PbftLater.here = ([], refl)
PbftLater-PbftRun env p r (PbftLater.next q _ call other before e) =
    PbftRun-last env call _ _ _ e (PbftLater-PbftRun env p q before)
PbftLater-PbftRun env p r (PbftLater.vote q _ now msg accepted before e) =
    PbftRun-last env (Calls.Call.advance now msg) _ _ _ e
      (PbftRun-last env (Calls.Call.verify now msg) _ _ _ refl (PbftLater-PbftRun env p q before))

PeersLater-PeersRun : (env : Platform) (p q : PeerManager) → PeersLater env p q → PeersRun env p q
unfolding PeerCalls.perform_all
PeersLater-PeersRun env p _ PeersLater.here = ([], refl)
PeersLater-PeersRun env p r (PeersLater.next q _ call before e) =
    let (calls, reached) = PeersLater-PeersRun env p q before in
    (
      calls ++ call ∷ [],
      perform_all-last env calls call p ∙ (ap (PeerCalls.perform env call) reached ∙ sym e),
    )

-- Whatever events a node handles, in whatever order: its consensus ends in a state to which a history
-- of calls of the consensus alone leads, and its peer manager in one to which a history of calls of
-- the peer manager alone leads.
pub handle_all-Run :
    (w : World) (events : List Event) (m n : MeshNode)
    → handle_all w events m ≡ some n
    → PbftRun w.platform m.pbft n.pbft × PeersRun w.platform m.peers n.peers
handle_all-Run w events m n e =
    let (pbft, peers) =
      subst (LaterIfSome w m) e (handle_all-Later w m events m (PbftLater.here, PeersLater.here)) in
    (
      PbftLater-PbftRun w.platform m.pbft n.pbft pbft,
      PeersLater-PeersRun w.platform m.peers n.peers peers,
    )

provision-Later :
    (w : World) (m : MeshNode) (entries : List Text) (n : MeshNode)
    → Later w m n
    → Later w m (provision w.platform entries n)
unfolding provision Calls.perform PeerCalls.perform
provision-Later w m [] n before = before
provision-Later w m (entry ∷ entries) n (pbft, peers) = provision-Later w m entries _ (
    option_elim (Later w m) (at_colon entry) (λ e. (pbft, peers))
      (λ found e. (
        PbftLater.next _ _ Calls.Call.increment refl
            (PbftLater.next _ _ (Calls.Call.register_peer found.0 (provisioned_pem found.1)) refl
              pbft refl)
            refl,
        PeersLater.next _ _ (PeerCalls.Call.provision found.0 (provisioned_pem found.1)) peers refl,
      )))

module _ (w : World) (window limit peer_keys : Option Text) (m : MeshNode) where
  -- The node as it is before the first call of its constructor.
  abbrev unregistered : MeshNode
  unregistered = record m { pbft = init w.platform (pos 1) window limit; peers = new_peer_manager }

  construct-Later : Later w unregistered (construct w.platform window limit peer_keys m)
  unfolding construct Calls.perform
  construct-Later =
      let pbft =
        PbftLater.next _ _ (Calls.Call.private_key (some m.private_key)) refl
          (PbftLater.next _ _ (Calls.Call.my_identity m.node_id) refl
            (PbftLater.next _ _ (Calls.Call.register_peer m.node_id m.public_key_pem) refl
              PbftLater.here refl)
            refl)
          refl in
      option_elim (Later w unregistered) peer_keys (λ e. (pbft, PeersLater.here))
        (λ keys e.
          provision-Later w unregistered (split_string b',' keys) _ (pbft, PeersLater.here))

  -- After whatever events a node has handled since its construction, no sender stands twice among the
  -- voters of a stage of its consensus, no rate window, no message history of it and no rate table of
  -- its peer manager is longer than its bound, and its sets of peers have no repetition.
  pub handle_all-IsValid :
      (events : List Event) (n : MeshNode)
      → handle_all w events (construct w.platform window limit peer_keys m) ≡ some n
      → IsValid n.pbft × (length n.peers.rate_limits ≤ rate_limit_map_cap)
  handle_all-IsValid events n e =
      let (pbft, peers) = subst (LaterIfSome w unregistered) e (
        handle_all-Later w unregistered events (construct w.platform window limit peer_keys m)
          construct-Later) in
      let (calls, reached) =
        PbftLater-PbftRun w.platform (init w.platform (pos 1) window limit) n.pbft pbft in
      let (peer_calls, peers_reached) =
        PeersLater-PeersRun w.platform new_peer_manager n.peers peers in
      (
        subst IsValid reached (run-init-IsValid w.platform (pos 1) window limit calls),
        subst (λ (p : PeerManager). length p.rate_limits ≤ rate_limit_map_cap) peers_reached
            (length-perform_all-rate_limits w.platform peer_calls),
      )

-- A peer that a node has banned stays banned, whatever events the node handles.
pub handle_all-is_banned :
    (w : World) (events : List Event) (m n : MeshNode) (id : Text)
    → handle_all w events m ≡ some n
    → is_banned id m.pbft ≡ true
    → is_banned id n.pbft ≡ true
unfolding is_banned
handle_all-is_banned w events m n id e banned =
    let ((calls, reached), _) = handle_all-Run w events m n e in
    subst (λ (p : PbftConsensus). contains id p.banned_peers ≡ true) reached
      (run_banned id w.platform calls m.pbft banned).0
