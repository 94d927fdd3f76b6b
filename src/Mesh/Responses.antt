-- ===== src/Mesh/Responses.antt =====
-- The responses that a node of consensus/MeshNode.cpp asks its mitigation engine for.
pub mod Votes
use neuro_mesh.Prelude.{
  ℕ, zero, suc, ◌+◌, ◌/◌, ◌≤◌, ◌≡◌, ◌≢◌, refl, ap, sym, ◌∙◌, subst, Bool, true, false, not, ◌&&◌,
  ◌||◌, Option, none, some, List, [], ◌∷◌, ◌++◌, Text, codes, text_eq, is_empty, if◌then◌else◌, ltb,
  leb, length, arith, if_intro, if_elim, option_elim,
}
use neuro_mesh.Prelude.Int.{ℤ, pos, negsuc}
use neuro_mesh.Prelude.Numbers.{stoi, stoull}
use neuro_mesh.Prelude.Search.{split_string}
use neuro_mesh.Enforcer.Types.{PolicyEnforcer}
use neuro_mesh.Enforcer.Addresses.{register_peer_ip}
use neuro_mesh.Pbft.Advance.{stage_prepare, stage_commit, stage_ban_peer}
use neuro_mesh.Pbft.Registry.{round_key_of, round_of, get_round_commit_sig}
use neuro_mesh.Pbft.Types.{PbftConsensus, PbftStage, P2pMessage, Platform, quorum_size}
use neuro_mesh.Pbft.Verify.{verify_message}
use neuro_mesh.Pbft.Vote.{advance_state}
use neuro_mesh.Pbft.Vote.Safety.{advance_state-RoundMoved, RoundMoved}
use neuro_mesh.Peers.Rates.{check_rate_limit}
use neuro_mesh.Peers.Registry.{peer_count, get_all_peer_ids, get_peer_tls_fd, is_known_ip}
use neuro_mesh.ProofChain.Printed.{get_latest_json}
use neuro_mesh.Mesh.Types.{MeshNode, World, Output, give}
use neuro_mesh.Mesh.Wire.{decode_or_empty, validate_message, announce_blob}
use neuro_mesh.Mesh.Consensus.{
  is_ban_round, push, push_spike, spike_json, flagged_json, write_journal, commit_key, own_vote,
  send_to_peer, send_to_peers, send_payload, payload_of, count_vote, on_commit, execute_ban, bans,
  record_proof, respond, execute_own, follow, broadcast_pbft_stage, vote_fuel,
}
use neuro_mesh.Mesh.Vote.{
  token, vote_fields_ok, parse_vote, alert, report_verdict, execute_received, react, note_target,
  process_vote,
}
use neuro_mesh.Mesh.Announce.{
  tell_enforcer, announce_fields_ok, is_signed, announce_identity, answer_announce, admit_announce,
  process_announce,
}
use neuro_mesh.Mesh.Message.{dispatch, process_message}

-- The responses among some outputs.
unfoldable pub responses : List Output → List (Text × Text)
responses [] = []
responses (Output.respond evidence target ∷ outputs) = (evidence, target) ∷ responses outputs
responses (Output.broadcast _ ∷ outputs) = responses outputs
responses (Output.discovery _ ∷ outputs) = responses outputs
responses (Output.unicast _ _ _ ∷ outputs) = responses outputs
responses (Output.tls_send _ _ ∷ outputs) = responses outputs
responses (Output.push_telemetry _ ∷ outputs) = responses outputs
responses (Output.export_file ∷ outputs) = responses outputs
responses (Output.webhook _ _ _ _ ∷ outputs) = responses outputs
responses (Output.pex_hello _ _ _ ∷ outputs) = responses outputs
responses (Output.pex_reply _ ∷ outputs) = responses outputs
responses (Output.trust_cert _ ∷ outputs) = responses outputs
responses (Output.close _ ∷ outputs) = responses outputs

-- The round of the evidence and its target is executed.
abbrev pub IsExecuted : World → Text → Text → MeshNode → Type 0
IsExecuted w evidence target m =
    (round_of (round_key_of w.platform evidence target) m.pbft).state ≡ PbftStage.executed

-- No response, or one, to the evidence about the target: it is no ban, its round is executed, and the
-- node knows a peer.
pub data Answers (w : World) (evidence target : Text) (m n : MeshNode) : Type 0 where
  quiet : responses n.outputs ≡ responses m.outputs → Answers w evidence target m n
  once :
      responses n.outputs ≡ (evidence, target) ∷ responses m.outputs
      → is_ban_round evidence ≡ false
      → IsExecuted w evidence target n
      → 1 ≤ peer_count n.peers
      → Answers w evidence target m n

module _ (w : World) (m : MeshNode) where
  abbrev Quiet : MeshNode → Type 0
  Quiet n = responses n.outputs ≡ responses m.outputs

  push-Quiet : (json : Text) (n : MeshNode) → Quiet n → Quiet (push json n)
  unfolding push responses
  push-Quiet json n q = if_intro Quiet n.has_bridge q q

  push_spike-Quiet : (target : Text) (n : MeshNode) → Quiet n → Quiet (push_spike target n)
  unfolding push_spike
  push_spike-Quiet target n q = push-Quiet (spike_json target (quorum_size n.pbft)) n q

  on_commit-Quiet :
      (target evidence : Text) (n : MeshNode) → Quiet n → Quiet (on_commit w target evidence n)
  unfolding on_commit write_journal
  on_commit-Quiet target evidence n q =
      push_spike-Quiet target (write_journal w stage_commit target evidence n) q

  send_to_peer-Quiet :
      (payload id : Text) (n : MeshNode) → Quiet n → Quiet (send_to_peer w payload id n)
  unfolding send_to_peer responses
  send_to_peer-Quiet payload id n q =
      option_elim Quiet (get_peer_tls_fd id n.peers) (λ e. q)
        (λ fd e. if_intro Quiet (not n.has_transport) q q)

  send_to_peers-Quiet :
      (payload : Text) (ids : List Text) (n : MeshNode)
      → Quiet n
      → Quiet (send_to_peers w payload ids n)
  unfolding send_to_peers
  send_to_peers-Quiet payload [] n q = q
  send_to_peers-Quiet payload (id ∷ ids) n q =
      send_to_peers-Quiet payload ids (send_to_peer w payload id n)
        (send_to_peer-Quiet payload id n q)

  send_payload-Quiet : (payload : Text) (n : MeshNode) → Quiet n → Quiet (send_payload w payload n)
  unfolding send_payload responses
  send_payload-Quiet payload n q =
      send_to_peers-Quiet payload (get_all_peer_ids w.platform n.peers) n q

  count_vote-Quiet : (msg : P2pMessage) (n : MeshNode) → Quiet n → Quiet (count_vote w msg n).0
  unfolding count_vote
  count_vote-Quiet msg n q =
      if_intro (λ (r : MeshNode × PbftStage). Quiet r.0)
        (verify_message w.platform (w.now n.outputs) msg n.pbft).1 q q

-- A vote that is counted and reported as executed has its round at EXECUTED.
count_vote-IsExecuted :
    (w : World) (msg : P2pMessage) (n : MeshNode)
    → (count_vote w msg n).1 ≡ PbftStage.executed
    → IsExecuted w msg.evidence_json msg.target_id (count_vote w msg n).0
unfolding count_vote
count_vote-IsExecuted w msg n =
    let now = w.now n.outputs in
    let seen = verify_message w.platform now msg n.pbft in
    if_elim
      (λ (r : MeshNode × PbftStage).
        r.1 ≡ PbftStage.executed → IsExecuted w msg.evidence_json msg.target_id r.0)
      seen.1
      (λ ok e.
        let (_, _, moved) =
          advance_state-RoundMoved w.platform now msg seen.0 (λ idle. absurd (cc)) in
        moved.reached ∙ e)
      (λ failed e. absurd (cc))
