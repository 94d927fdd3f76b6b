-- ===== src/Mesh/Histories/Packets.antt =====
-- The packets of consensus/MeshNode.cpp as histories of calls of the consensus and of the peer manager.
use neuro_mesh.Prelude.{
  ℕ, ◌-◌, ◌/◌, refl, Bool, not, ◌&&◌, List, ◌++◌, Text, codes, text_eq, is_empty, ltb, leb, length,
  if_intro, option_elim,
}
use neuro_mesh.Prelude.Int.{pos}
use neuro_mesh.Prelude.Search.{split_string}
use neuro_mesh.Enforcer.Types.{PolicyEnforcer}
use neuro_mesh.Enforcer.Addresses.{register_peer_ip}
use neuro_mesh.Pbft.Advance.{stage_prepare, stage_commit}
use neuro_mesh.Pbft.Calls
use neuro_mesh.Pbft.Registry
use neuro_mesh.Pbft.Registry.{get_round_commit_sig}
use neuro_mesh.ProofChain.Printed.{get_latest_json}
use neuro_mesh.Pbft.Types.{PbftConsensus, PbftStage, P2pMessage}
use neuro_mesh.Peers.Calls as PeerCalls
use neuro_mesh.Peers.Rates.{check_rate_limit}
use neuro_mesh.Peers.Registry.{peer_count, add_peer, is_known_ip, add_known_ip}
use neuro_mesh.Peers.Trust.{confirm_path}
use neuro_mesh.Peers.Types.{PeerManager, path_announce}
use neuro_mesh.Mesh.Types.{MeshNode, World}
use neuro_mesh.Mesh.Wire.{announce_blob, decode_or_empty, validate_message}
use neuro_mesh.Mesh.Consensus.{
  push, push_spike, flagged_json, write_journal, bans, record_proof, commit_key, vote_fuel,
  on_commit, count_vote,
}
use neuro_mesh.Mesh.Vote.{
  token, alert, report_verdict, execute_received, react, note_target, parse_vote, process_vote,
}
use neuro_mesh.Mesh.Announce.{
  tell_enforcer, register_confirmed, announce_fields_ok, announce_identity, is_signed,
  answer_announce, admit_announce, process_announce,
}
use neuro_mesh.Mesh.Message.{dispatch, process_message}
use neuro_mesh.Mesh.Histories.Votes.{
  PbftLater, PeersLater, Later, push-Later, push_spike-Later, count_vote-Later, on_commit-Later,
  execute_ban-Later, respond-Later, broadcast_pbft_stage-Later,
}

module _ (w : World) (m : MeshNode) where
  alert-Later :
      (msg : P2pMessage) (now_us : ℕ) (n : MeshNode)
      → Later w m n
      → Later w m (alert w msg now_us n)
  unfolding alert
  alert-Later msg now_us n before = if_intro (Later w m) (is_empty n.webhook_url) before before

  report_verdict-Later :
      (msg : P2pMessage) (now_us : ℕ) (proof_json : Text) (n : MeshNode)
      → Later w m n
      → Later w m (report_verdict w msg now_us proof_json n)
  unfolding report_verdict
  report_verdict-Later msg now_us proof_json n before =
      let pushed : MeshNode = push proof_json n in
      let alerted : MeshNode = alert w msg now_us pushed in
      push-Later w m (flagged_json msg.target_id) (push_spike msg.target_id alerted) (
        push_spike-Later w m msg.target_id alerted
          (alert-Later msg now_us pushed (push-Later w m proof_json n before)))

  execute_received-Later :
      (msg : P2pMessage) (n : MeshNode) → Later w m n → Later w m (execute_received w msg n)
  unfolding execute_received record_proof write_journal
  execute_received-Later msg n before =
      let now_us = w.now n.outputs / 1000 in
      let sig = get_round_commit_sig (commit_key w msg.evidence_json msg.target_id) n.pbft in
      let proved : MeshNode =
        record_proof w msg sig
          (write_journal w (codes "EXECUTED") msg.target_id msg.evidence_json n) in
      let proof_json : Text =
        codes "{\"proof_chain\":" ++ (get_latest_json proved.proof_chain ++ codes "}") in
      if_intro (Later w m) (bans w msg) (execute_ban-Later w m msg n before) (
        if_intro (Later w m) (ltb (peer_count n.peers) 1) before (
          respond-Later w m msg (report_verdict w msg now_us proof_json proved)
            (report_verdict-Later msg now_us proof_json proved before)))

  react-Later :
      (msg : P2pMessage) (r : MeshNode × PbftStage) → Later w m r.0 → Later w m (react w msg r)
  unfolding react
  react-Later msg (n, PbftStage.prepare) before =
      broadcast_pbft_stage-Later w m (vote_fuel w) stage_prepare msg.target_id msg.evidence_json n
        before
  react-Later msg (n, PbftStage.commit) before =
      broadcast_pbft_stage-Later w m (vote_fuel w) stage_commit msg.target_id msg.evidence_json
        (on_commit w msg.target_id msg.evidence_json n)
        (on_commit-Later w m msg.target_id msg.evidence_json n before)
  react-Later msg (n, PbftStage.executed) before = execute_received-Later msg n before
  react-Later msg (n, PbftStage.idle) before = before
  react-Later msg (n, PbftStage.pre_prepare) before = before
  react-Later msg (n, PbftStage.ban_peer) before = before

  note_target-Later :
      (msg : P2pMessage) (n : MeshNode) → Later w m n → Later w m (note_target w msg n)
  unfolding note_target
  note_target-Later msg n before =
      if_intro (Later w m) (text_eq msg.target_id n.node_id) before before

  process_vote-Later :
      (tokens : List Text) (n : MeshNode) → Later w m n → Later w m (process_vote w tokens n)
  unfolding process_vote
  process_vote-Later tokens n before =
      option_elim (Later w m) (parse_vote n.max_evidence_size tokens) (λ nothing. before)
        (λ msg e. if_intro (Later w m) (text_eq msg.sender_id n.node_id) before (
          react-Later msg (count_vote w msg (note_target w msg n))
            (count_vote-Later w m msg (note_target w msg n) (note_target-Later msg n before))))

  pub tell_enforcer-Later :
      (tell : PolicyEnforcer → PolicyEnforcer) (n : MeshNode)
      → Later w m n
      → Later w m (tell_enforcer tell n)
  unfolding tell_enforcer
  tell_enforcer-Later tell n before =
      option_elim (Later w m) n.enforcer (λ missing. before) (λ enforcer e. before)

  pub register_confirmed-Later :
      (dual : Bool) (peer_id pem : Text) (p : PbftConsensus)
      → PbftLater w.platform m.pbft p
      → PbftLater w.platform m.pbft (register_confirmed w.platform dual peer_id pem p)
  unfolding register_confirmed Calls.perform
  register_confirmed-Later dual peer_id pem p before =
      if_intro (PbftLater w.platform m.pbft) (dual && not (Registry.has_peer peer_id p))
        (PbftLater.next _ _ Calls.Call.increment refl
          (PbftLater.next _ _ (Calls.Call.register_peer peer_id pem) refl before refl) refl)
        before

  answer_announce-Later :
      (is_new : Bool) (n : MeshNode) → Later w m n → Later w m (answer_announce w is_new n)
  unfolding answer_announce announce_identity
  answer_announce-Later is_new n before = if_intro (Later w m) is_new before (
      if_intro (Later w m) (leb 2 ((w.now n.outputs - n.last_announce_time) / 1000000000)) before
        before)

  admit_announce-Later :
      (peer_id pem ip : Text) (n : MeshNode)
      → Later w m n
      → Later w m (admit_announce w peer_id pem ip n)
  unfolding admit_announce PeerCalls.perform
  admit_announce-Later peer_id pem ip n (pbft, peers) =
      let now = w.now n.outputs in
      let known : PeerManager = add_known_ip peer_id n.peers in
      let added : PeerManager = (add_peer now peer_id ip (pos 0) (pos 0) pem known).0 in
      let confirmed = confirm_path path_announce peer_id pem added in
      let peers_later =
        PeersLater.next added confirmed.0 (PeerCalls.Call.confirm path_announce peer_id pem)
          (PeersLater.next known added (PeerCalls.Call.add now peer_id ip (pos 0) (pos 0) pem)
            (PeersLater.next n.peers known (PeerCalls.Call.known_ip peer_id) peers refl) refl)
          refl in
      let registered : MeshNode = record n {
        peers = confirmed.0;
        pbft = register_confirmed w.platform confirmed.1.dual_confirmed peer_id pem n.pbft;
      } in
      if_intro (Later w m) confirmed.1.key_mismatch (pbft, peers_later)
        (answer_announce-Later (not (is_known_ip peer_id n.peers)) _ (
          tell_enforcer-Later (register_peer_ip w.host peer_id ip) registered (
            register_confirmed-Later confirmed.1.dual_confirmed peer_id pem n.pbft pbft,
            peers_later,
          )))

  process_announce-Later :
      (tokens : List Text) (ip : Text) (n : MeshNode)
      → Later w m n
      → Later w m (process_announce w tokens ip n)
  unfolding process_announce
  process_announce-Later tokens ip n before =
      if_intro (Later w m)
        (announce_fields_ok n.node_id tokens
          && is_signed w (token 2 tokens) (announce_blob (token 1 tokens) (token 2 tokens))
              (decode_or_empty (token 3 tokens)))
        (admit_announce-Later (token 1 tokens) (token 2 tokens) ip n before) before

  pub process_message-Later :
      (msg ip : Text) (n : MeshNode) → Later w m n → Later w m (process_message w msg ip n)
  unfolding process_message dispatch PeerCalls.perform
  process_message-Later msg ip n (pbft, peers) =
      let limited = check_rate_limit w.platform (w.now n.outputs) ip n.peers in
      let counted : MeshNode = record n { peers = limited.0 } in
      let tokens : List Text = split_string b'|' msg in
      let counted-Later : Later w m counted =
        (pbft, PeersLater.next _ _ (PeerCalls.Call.rate (w.now n.outputs) ip) peers refl) in
      if_intro (Later w m) (not limited.1) counted-Later (
        if_intro (Later w m) (not (validate_message msg)) counted-Later (
          if_intro (Later w m) (ltb (length tokens) 3) counted-Later (
            if_intro (Later w m) (text_eq (token 0 tokens) (codes "ANNOUNCE"))
              (process_announce-Later tokens ip counted counted-Later)
              (if_intro (Later w m)
                (text_eq (token 0 tokens) (codes "VOTE") && leb 9 (length tokens))
                (process_vote-Later tokens counted counted-Later) counted-Later))))
