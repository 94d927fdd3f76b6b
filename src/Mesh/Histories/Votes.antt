-- ===== src/Mesh/Histories/Votes.antt =====
-- The votes of consensus/MeshNode.cpp as histories of calls of the consensus and of the peer manager.
use neuro_mesh.Prelude.{
  ℕ, zero, suc, ◌≡◌, refl, Bool, not, ◌||◌, List, [], ◌∷◌, ◌++◌, Text, codes, text_eq, is_empty,
  ltb, if_intro, if_elim, false, true, Option-cases, inl, inr,
}
use neuro_mesh.Prelude.Int.{negsuc}
use neuro_mesh.Pbft.Advance.{stage_pre_prepare, stage_commit}
use neuro_mesh.Pbft.Calls
use neuro_mesh.Pbft.Calls.Voters.{counts_vote}
use neuro_mesh.Pbft.Registry.{is_banned}
use neuro_mesh.Pbft.Types.{PbftConsensus, PbftStage, P2pMessage, Platform}
use neuro_mesh.Pbft.Verify.{verify_message}
use neuro_mesh.Pbft.Vote.{advance_state}
use neuro_mesh.Peers.Calls as PeerCalls
use neuro_mesh.Peers.Registry.{
  get_all_peer_ids, get_peer_tls_fd, peer_count, is_on_cooldown, set_cooldown,
}
use neuro_mesh.Peers.Types.{PeerManager}
use neuro_mesh.Mesh.Types.{MeshNode, World}
use neuro_mesh.Mesh.Consensus.{
  push, push_spike, write_journal, own_vote, commit_key, send_to_peer, send_to_peers, send_payload,
  payload_of, count_vote, on_commit, execute_ban, bans, record_proof, respond, execute_own, follow,
  broadcast_pbft_stage, vote_fuel, initiate_consensus, propose_ban,
}

-- The states that calls of the consensus lead to, in which `advance_state` takes a message only right
-- after `verify_message` has accepted it.
pub data PbftLater (env : Platform) (p : PbftConsensus) : PbftConsensus → Type 0 where
  here : PbftLater env p p
  next :
      (q r : PbftConsensus) (call : Calls.Call)
      → counts_vote call ≡ false
      → PbftLater env p q
      → r ≡ Calls.perform env call q
      → PbftLater env p r
  vote :
      (q r : PbftConsensus) (now : ℕ) (msg : P2pMessage)
      → (verify_message env now msg q).1 ≡ true
      → PbftLater env p q
      → r ≡ (advance_state env now msg (verify_message env now msg q).0).0
      → PbftLater env p r

-- The states that calls of the peer manager lead to.
pub data PeersLater (env : Platform) (p : PeerManager) : PeerManager → Type 0 where
  here : PeersLater env p p
  next :
      (q r : PeerManager) (call : PeerCalls.Call)
      → PeersLater env p q
      → r ≡ PeerCalls.perform env call q
      → PeersLater env p r

-- Both of a later node.
abbrev pub Later : World → MeshNode → MeshNode → Type 0
Later w m n = PbftLater w.platform m.pbft n.pbft × PeersLater w.platform m.peers n.peers

module _ (w : World) (m : MeshNode) where
  pub push-Later : (json : Text) (n : MeshNode) → Later w m n → Later w m (push json n)
  unfolding push
  push-Later json n before = if_intro (Later w m) n.has_bridge before before

  pub push_spike-Later :
      (target : Text) (n : MeshNode) → Later w m n → Later w m (push_spike target n)
  unfolding push_spike
  push_spike-Later target n before = push-Later _ n before

  own_vote-Later :
      (stage target evidence : Text) (n : MeshNode)
      → Later w m n
      → Later w m (own_vote w stage target evidence n).0
  unfolding own_vote Calls.perform
  own_vote-Later stage target evidence n (pbft, peers) = (
    if_intro (PbftLater w.platform m.pbft) (text_eq stage stage_commit)
        (PbftLater.next _ _ (Calls.Call.commit_sig (commit_key w evidence target) _) refl pbft refl)
        pbft,
    peers,
  )

  send_to_peer-Later :
      (payload peer_id : Text) (n : MeshNode)
      → Later w m n
      → Later w m (send_to_peer w payload peer_id n)
  unfolding send_to_peer PeerCalls.perform
  send_to_peer-Later payload peer_id n (pbft, peers) =
      elim (Option-cases (get_peer_tls_fd peer_id n.peers)) [
        | inl missing ↦ rw (send_to_peer, missing) (pbft, peers)
        | inr (fd, e) ↦
            rw (send_to_peer, e)
              (if_intro (Later w m) (not n.has_transport) (pbft, peers)
                (
                  pbft,
                  if_intro (PeersLater w.platform m.peers) (w.sends n.outputs fd payload) peers (
                      PeersLater.next _ _ (PeerCalls.Call.set_tls_fd peer_id (negsuc 0)) peers
                        refl),
                ))
      ]

  send_to_peers-Later :
      (payload : Text) (ids : List Text) (n : MeshNode)
      → Later w m n
      → Later w m (send_to_peers w payload ids n)
  unfolding send_to_peers
  send_to_peers-Later payload [] n before = before
  send_to_peers-Later payload (id ∷ ids) n before =
      send_to_peers-Later payload ids _ (send_to_peer-Later payload id n before)

  send_payload-Later :
      (payload : Text) (n : MeshNode) → Later w m n → Later w m (send_payload w payload n)
  unfolding send_payload
  send_payload-Later payload n before =
      send_to_peers-Later payload (get_all_peer_ids w.platform n.peers) n before

  pub count_vote-Later :
      (msg : P2pMessage) (n : MeshNode) → Later w m n → Later w m (count_vote w msg n).0
  unfolding count_vote Calls.perform
  count_vote-Later msg n (pbft, peers) =
      let now = w.now n.outputs in
      if_elim (λ (r : MeshNode × PbftStage). Later w m r.0)
        (verify_message w.platform now msg n.pbft).1
        (λ accepted. (PbftLater.vote _ _ now msg accepted pbft refl, peers))
        (λ refused. (PbftLater.next _ _ (Calls.Call.verify now msg) refl pbft refl, peers))

  pub on_commit-Later :
      (target evidence : Text) (n : MeshNode)
      → Later w m n
      → Later w m (on_commit w target evidence n)
  unfolding on_commit write_journal
  on_commit-Later target evidence n before = push_spike-Later target _ before

  pub execute_ban-Later :
      (msg : P2pMessage) (n : MeshNode) → Later w m n → Later w m (execute_ban w msg n)
  unfolding execute_ban write_journal Calls.perform
  execute_ban-Later msg n (pbft, peers) =
      (PbftLater.next _ _ (Calls.Call.ban_local msg.target_id) refl pbft refl, peers)

  pub respond-Later : (msg : P2pMessage) (n : MeshNode) → Later w m n → Later w m (respond w msg n)
  unfolding respond
  respond-Later msg n before = if_intro (Later w m) n.has_mitigation before before

  execute_own-Later :
      (msg : P2pMessage) (n : MeshNode) → Later w m n → Later w m (execute_own w msg n)
  unfolding execute_own record_proof write_journal
  execute_own-Later msg n before =
      if_intro (Later w m) (bans w msg) (execute_ban-Later msg n before)
        (if_intro (Later w m) (ltb (peer_count n.peers) 1) before (respond-Later msg _ before))

  follow-Later :
      (cast : Text → MeshNode → MeshNode) (msg : P2pMessage) (r : MeshNode × PbftStage)
      → ((stage : Text) (n : MeshNode) → Later w m n → Later w m (cast stage n))
      → Later w m r.0
      → Later w m (follow w cast msg r)
  unfolding follow
  follow-Later cast msg (n, PbftStage.prepare) go before = go _ n before
  follow-Later cast msg (n, PbftStage.commit) go before = go _ _ (on_commit-Later _ _ n before)
  follow-Later cast msg (n, PbftStage.executed) go before = execute_own-Later msg n before
  follow-Later cast msg (n, PbftStage.idle) go before = before
  follow-Later cast msg (n, PbftStage.pre_prepare) go before = before
  follow-Later cast msg (n, PbftStage.ban_peer) go before = before

  pub broadcast_pbft_stage-Later :
      (fuel : ℕ) (stage target evidence : Text) (n : MeshNode)
      → Later w m n
      → Later w m (broadcast_pbft_stage w fuel stage target evidence n)
  unfolding broadcast_pbft_stage
  broadcast_pbft_stage-Later zero stage target evidence n before = before
  broadcast_pbft_stage-Later (suc fuel) stage target evidence n before =
      let (voting, msg) = own_vote w stage target evidence n in
      follow-Later (λ (s : Text) (c : MeshNode). broadcast_pbft_stage w fuel s target evidence c)
        msg (count_vote w msg (send_payload w (payload_of msg) voting))
        (λ next_stage later. broadcast_pbft_stage-Later fuel next_stage target evidence later)
        (count_vote-Later msg _ (
          send_payload-Later (payload_of msg) voting
            (own_vote-Later stage target evidence n before)))

  pub initiate_consensus-Later :
      (target evidence : Text) (n : MeshNode)
      → Later w m n
      → Later w m (initiate_consensus w target evidence n)
  unfolding initiate_consensus PeerCalls.perform
  initiate_consensus-Later target evidence n (pbft, peers) =
      let now = w.now n.outputs in
      if_intro (Later w m) (is_on_cooldown now target n.peers) (pbft, peers)
        (broadcast_pbft_stage-Later (vote_fuel w) stage_pre_prepare target evidence
          (record n { peers = set_cooldown now target n.peers })
          (pbft, PeersLater.next _ _ (PeerCalls.Call.cooldown now target) peers refl))

  pub propose_ban-Later :
      (target reason : Text) (n : MeshNode)
      → Later w m n
      → Later w m (propose_ban w target reason n).0
  unfolding propose_ban write_journal Calls.perform
  propose_ban-Later target reason n before =
      let evidence : Text = codes "{\"action\":\"ban\",\"reason\":\"" ++ (reason ++ codes "\"}") in
      let (pbft, peers) =
        broadcast_pbft_stage-Later (vote_fuel w) stage_pre_prepare target evidence n before in
      let proposed = broadcast_pbft_stage w (vote_fuel w) stage_pre_prepare target evidence n in
      if_intro (λ (r : MeshNode × Bool). Later w m r.0)
        (is_empty target || text_eq target n.node_id) before
        (if_intro (λ (r : MeshNode × Bool). Later w m r.0) (is_banned target proposed.pbft)
          (pbft, peers) (PbftLater.next _ _ (Calls.Call.ban_local target) refl pbft refl, peers))
