-- ===== src/Mesh/Responses/Votes.antt =====
-- When the packets of consensus/MeshNode.cpp lead to a response.
use neuro_mesh.Prelude.{
  ℕ, zero, suc, ◌/◌, ◌≤◌, ◌≡◌, ◌≢◌, refl, ap, subst, Bool, false, ◌||◌, some, List, ◌∷◌, ◌++◌, Text,
  codes, text_eq, text_eq_iff, is_empty, ltb, arith, if_intro, if_elim, option_elim,
}
use neuro_mesh.Pbft.Advance.{stage_prepare, stage_commit, stage_ban_peer}
use neuro_mesh.Pbft.Registry.{get_round_commit_sig}
use neuro_mesh.Pbft.Types.{PbftStage, P2pMessage, quorum_size}
use neuro_mesh.Peers.Registry.{peer_count}
use neuro_mesh.ProofChain.Printed.{get_latest_json}
use neuro_mesh.Mesh.Types.{MeshNode, World}
use neuro_mesh.Mesh.Consensus.{
  push, push_spike, spike_json, flagged_json, write_journal, commit_key, own_vote, send_payload,
  payload_of, count_vote, on_commit, execute_ban, bans, record_proof, respond, execute_own, follow,
  broadcast_pbft_stage, vote_fuel,
}
use neuro_mesh.Mesh.Vote.{
  parse_vote, alert, report_verdict, execute_received, react, note_target, process_vote,
}
use neuro_mesh.Mesh.Responses.{
  responses, IsExecuted, Answers, quiet, once, Quiet, on_commit-Quiet, send_payload-Quiet,
  count_vote-Quiet, count_vote-IsExecuted,
}

or_false : (a b : Bool) → (a || b) ≡ false → a ≡ false
or_false a b h = ground arith

module _ (w : World) (msg : P2pMessage) (m : MeshNode) where
  abbrev Answered : MeshNode → Type 0
  Answered = Answers w msg.evidence_json msg.target_id m

  -- No response yet, in a round that executes at a node that knows a peer.
  abbrev Ready : MeshNode → Type 0
  Ready n = Quiet w m n × IsExecuted w msg.evidence_json msg.target_id n × (1 ≤ peer_count n.peers)

  respond-Answered : (n : MeshNode) → bans w msg ≡ false → Ready n → Answered (respond w msg n)
  unfolding respond responses
  respond-Answered n fair (q, executed, known) =
      if_intro Answered n.has_mitigation
        (once (ap (λ rest. (msg.evidence_json, msg.target_id) ∷ rest) q)
          (or_false _ (text_eq msg.stage_str stage_ban_peer) fair) executed known)
        (quiet q)

  execute_own-Answered :
      (n : MeshNode)
      → Quiet w m n
      → IsExecuted w msg.evidence_json msg.target_id n
      → Answered (execute_own w msg n)
  unfolding execute_own execute_ban record_proof write_journal responses
  execute_own-Answered n q executed =
      if_elim Answered (bans w msg) (λ ban. quiet q)
        (λ fair.
          if_elim Answered (ltb (peer_count n.peers) 1) (λ alone. quiet q)
            (λ known.
              let some_peer : 1 ≤ peer_count n.peers = ground arith in
              respond-Answered
                (record_proof w msg msg.signature
                  (write_journal w (codes "EXECUTED") msg.target_id msg.evidence_json n))
                fair (q, executed, some_peer)))

  push-Ready : (json : Text) (n : MeshNode) → Ready n → Ready (push json n)
  unfolding push responses
  push-Ready json n r = if_intro Ready n.has_bridge r r

  report_verdict-Ready :
      (now_us : ℕ) (proof_json : Text) (n : MeshNode)
      → Ready n
      → Ready (report_verdict w msg now_us proof_json n)
  unfolding report_verdict alert push_spike responses
  report_verdict-Ready now_us proof_json n r =
      let pushed : MeshNode = push proof_json n in
      let pushed_ready = push-Ready proof_json n r in
      let alerted : MeshNode = alert w msg now_us pushed in
      let alerted_ready = if_intro Ready (is_empty pushed.webhook_url) pushed_ready pushed_ready in
      push-Ready (flagged_json msg.target_id) (push_spike msg.target_id alerted)
        (push-Ready (spike_json msg.target_id (quorum_size alerted.pbft)) alerted alerted_ready)

  execute_received-Answered :
      (n : MeshNode)
      → Quiet w m n
      → IsExecuted w msg.evidence_json msg.target_id n
      → Answered (execute_received w msg n)
  unfolding execute_received execute_ban record_proof write_journal responses
  execute_received-Answered n q executed =
      let now_us = w.now n.outputs / 1000 in
      let sig = get_round_commit_sig (commit_key w msg.evidence_json msg.target_id) n.pbft in
      let proved : MeshNode =
        record_proof w msg sig
          (write_journal w (codes "EXECUTED") msg.target_id msg.evidence_json n) in
      let proof_json : Text =
        codes "{\"proof_chain\":" ++ (get_latest_json proved.proof_chain ++ codes "}") in
      if_elim Answered (bans w msg) (λ ban. quiet q)
        (λ fair.
          if_elim Answered (ltb (peer_count n.peers) 1) (λ alone. quiet q)
            (λ known.
              let some_peer : 1 ≤ peer_count n.peers = ground arith in
              respond-Answered (report_verdict w msg now_us proof_json proved) fair
                (report_verdict-Ready now_us proof_json proved (q, executed, some_peer))))

module _ (w : World) (target evidence : Text) (m : MeshNode) where
  abbrev AnsweredTo : MeshNode → Type 0
  AnsweredTo = Answers w evidence target m

  follow-Answered :
      (cast : Text → MeshNode → MeshNode) (msg : P2pMessage) (r : MeshNode × PbftStage)
      → msg.evidence_json ≡ evidence
      → msg.target_id ≡ target
      → ((stage : Text) (n : MeshNode) → Quiet w m n → AnsweredTo (cast stage n))
      → Quiet w m r.0
      → (r.1 ≡ PbftStage.executed → IsExecuted w msg.evidence_json msg.target_id r.0)
      → AnsweredTo (follow w cast msg r)
  unfolding follow
  follow-Answered cast msg (n, PbftStage.prepare) e f go q x = go stage_prepare n q
  follow-Answered cast msg (n, PbftStage.commit) e f go q x =
      go stage_commit (on_commit w msg.target_id msg.evidence_json n)
        (on_commit-Quiet w m msg.target_id msg.evidence_json n q)
  follow-Answered cast msg (n, PbftStage.executed) e f go q x =
      subst (λ (t : Text). Answers w evidence t m (execute_own w msg n)) f
        (subst (λ (v : Text). Answers w v msg.target_id m (execute_own w msg n)) e
          (execute_own-Answered w msg m n q (x refl)))
  follow-Answered cast msg (n, PbftStage.idle) e f go q x = quiet q
  follow-Answered cast msg (n, PbftStage.pre_prepare) e f go q x = quiet q
  follow-Answered cast msg (n, PbftStage.ban_peer) e f go q x = quiet q

  own_vote-Quiet :
      (stage : Text) (n : MeshNode) → Quiet w m n → Quiet w m (own_vote w stage target evidence n).0
  unfolding own_vote
  own_vote-Quiet stage n q = q

  own_vote-about :
      (stage : Text) (n : MeshNode)
      → ((own_vote w stage target evidence n).1.evidence_json ≡ evidence)
        × ((own_vote w stage target evidence n).1.target_id ≡ target)
  unfolding own_vote
  own_vote-about stage n = (refl, refl)

  broadcast-Answered :
      (fuel : ℕ) (stage : Text) (n : MeshNode)
      → Quiet w m n
      → AnsweredTo (broadcast_pbft_stage w fuel stage target evidence n)
  unfolding broadcast_pbft_stage
  broadcast-Answered zero stage n q = quiet q
  broadcast-Answered (suc fuel) stage n q =
      let (voting, msg) = own_vote w stage target evidence n in
      let (same_evidence, same_target) = own_vote-about stage n in
      let sent : MeshNode = send_payload w (payload_of msg) voting in
      follow-Answered (λ (s : Text) (c : MeshNode). broadcast_pbft_stage w fuel s target evidence c)
        msg (count_vote w msg sent) same_evidence same_target
        (λ next_stage later. broadcast-Answered fuel next_stage later)
        (count_vote-Quiet w m msg sent
          (send_payload-Quiet w m (payload_of msg) voting (own_vote-Quiet stage n q)))
        (count_vote-IsExecuted w msg sent)

module _ (w : World) (msg : P2pMessage) (m : MeshNode) where
  react-Answered :
      (r : MeshNode × PbftStage)
      → Quiet w m r.0
      → (r.1 ≡ PbftStage.executed → IsExecuted w msg.evidence_json msg.target_id r.0)
      → Answers w msg.evidence_json msg.target_id m (react w msg r)
  unfolding react
  react-Answered (n, PbftStage.prepare) q x =
      broadcast-Answered w msg.target_id msg.evidence_json m (vote_fuel w) stage_prepare n q
  react-Answered (n, PbftStage.commit) q x =
      broadcast-Answered w msg.target_id msg.evidence_json m (vote_fuel w) stage_commit
        (on_commit w msg.target_id msg.evidence_json n)
        (on_commit-Quiet w m msg.target_id msg.evidence_json n q)
  react-Answered (n, PbftStage.executed) q x = execute_received-Answered w msg m n q (x refl)
  react-Answered (n, PbftStage.idle) q x = quiet q
  react-Answered (n, PbftStage.pre_prepare) q x = quiet q
  react-Answered (n, PbftStage.ban_peer) q x = quiet q

-- What a packet of votes may lead to: nothing, or what the vote in it allows.
pub data VoteAnswers (w : World) (tokens : List Text) (m n : MeshNode) : Type 0 where
  unread : n ≡ m → VoteAnswers w tokens m n
  read :
      (msg : P2pMessage)
      → parse_vote m.max_evidence_size tokens ≡ some msg
      → msg.sender_id ≢ m.node_id
      → Answers w msg.evidence_json msg.target_id m n
      → VoteAnswers w tokens m n

-- A packet of votes leads to a response of the mitigation engine only if it is read as a vote of another
-- node; then to one response at most, to the evidence and the target of that vote, and only if the
-- evidence is no ban, the node's own round for them is executed, and the node knows a peer.
pub process_vote-VoteAnswers :
    (w : World) (tokens : List Text) (m : MeshNode)
    → VoteAnswers w tokens m (process_vote w tokens m)
unfolding process_vote note_target
process_vote-VoteAnswers w tokens m =
    option_elim (VoteAnswers w tokens m) (parse_vote m.max_evidence_size tokens)
      (λ nothing. VoteAnswers.unread refl)
      (λ msg parsed.
        if_elim (VoteAnswers w tokens m) (text_eq msg.sender_id m.node_id)
          (λ own. VoteAnswers.unread refl)
          (λ foreign.
            let noted : MeshNode = note_target w msg m in
            let noted_quiet : Quiet w m noted =
              if_intro (Quiet w m) (text_eq msg.target_id m.node_id) refl refl in
            VoteAnswers.read msg parsed
              (λ same. absurd (ground (arith, text_eq_iff msg.sender_id m.node_id)))
              (react-Answered w msg m (count_vote w msg noted)
                (count_vote-Quiet w m msg noted noted_quiet) (count_vote-IsExecuted w msg noted))))
