-- ===== src/Mesh/Vote.antt =====
-- The votes that a node receives, in `process_message` of consensus/MeshNode.cpp.
pub mod RoundTrip
use neuro_mesh.Prelude.{
  ℕ, ◌+◌, ◌*◌, ◌/◌, Bool, true, false, not, ◌&&◌, ◌||◌, Option, none, some, List, [], ◌∷◌, ◌++◌,
  Text, codes, text_eq, is_empty, if◌then◌else◌, ltb, length, get_elem?,
}
use neuro_mesh.Prelude.Int.{ℤ}
use neuro_mesh.Prelude.Numbers.{stoi, stoull}
use neuro_mesh.Prelude.Search.{starts_with}
use neuro_mesh.Pbft.Advance.{stage_pre_prepare, stage_prepare, stage_commit, stage_ban_peer}
use neuro_mesh.Pbft.Registry.{get_round_commit_sig}
use neuro_mesh.Pbft.Types.{PbftConsensus, PbftStage, P2pMessage, quorum_size}
use neuro_mesh.Peers.Registry.{peer_count}
use neuro_mesh.ProofChain.Printed.{get_latest_json}
use neuro_mesh.Mesh.Types.{MeshNode, World, Output, give}
use neuro_mesh.Mesh.Wire.{decode_or_empty}
use neuro_mesh.Mesh.Consensus.{
  flagged_json, push, push_spike, write_journal, commit_key, count_vote, on_commit, execute_ban,
  bans, record_proof, respond, broadcast_pbft_stage, vote_fuel, is_ban_round,
}

-- `tokens[i]`, for an index that is below the size.
unfoldable pub token : ℕ → List Text → Text
token i tokens = elim (get_elem? tokens i) [ none ↦ [] | some text ↦ text ]

abbrev pub is_vote_stage : Text → Bool
is_vote_stage stage =
    text_eq stage stage_pre_prepare
    || text_eq stage stage_prepare
    || text_eq stage stage_commit
    || text_eq stage stage_ban_peer

-- The checks on the fields before the numbers, with the evidence decoded.
unfoldable pub vote_fields_ok : ℕ → List Text → Bool
unfolding token decode_or_empty starts_with
vote_fields_ok max_evidence_size tokens =
    let stage_str = token 1 tokens in
    let sender_id = token 2 tokens in
    let target_id = token 5 tokens in
    let evidence = decode_or_empty (token 6 tokens) in
    not (is_empty stage_str || is_empty sender_id || is_empty target_id)
    && not (ltb 64 (length sender_id) || ltb 64 (length target_id))
    && not (ltb (max_evidence_size * 4 / 3 + 4) (length (token 6 tokens)))
    && not (is_empty evidence || ltb max_evidence_size (length evidence))
    && starts_with (codes "{") evidence
    && is_vote_stage stage_str

-- The message of a vote with nine tokens or more, if it passes the checks.
unfoldable pub parse_vote : ℕ → List Text → Option P2pMessage
unfolding vote_fields_ok stoull stoi decode_or_empty token
parse_vote max_evidence_size tokens =
    if not (vote_fields_ok max_evidence_size tokens) then none else elim (stoull (token 3 tokens)) [
      | none ↦ none
      | some (seq, _) ↦ elim (stoi (token 4 tokens)) [
        | none ↦ none
        | some (view, _) ↦
            let decoded_sig = decode_or_empty (token 8 tokens) in
            if is_empty decoded_sig
            then none
            else some (record {
              stage_str = token 1 tokens;
              sender_id = token 2 tokens;
              target_id = token 5 tokens;
              evidence_json = decode_or_empty (token 6 tokens);
              signature = decoded_sig;
              prev_message_hash = token 7 tokens;
              sequence_number = seq;
              view = view;
            })
      ]
    ]

module _ (w : World) where
  -- The alert webhook, if there is one.
  unfoldable pub alert : P2pMessage → ℕ → MeshNode → MeshNode
  alert msg now_us m =
      if is_empty m.webhook_url
      then m
      else give (Output.webhook msg.target_id msg.evidence_json (quorum_size m.pbft) now_us) m

  -- The verdict goes to the bridge and to the webhook.
  unfoldable pub report_verdict : P2pMessage → ℕ → Text → MeshNode → MeshNode
  unfolding push alert push_spike flagged_json
  report_verdict msg now_us proof_json m =
      push (flagged_json msg.target_id)
        (push_spike msg.target_id (alert msg now_us (push proof_json m)))

  -- A round that executes with the vote of a peer.
  unfoldable pub execute_received : P2pMessage → MeshNode → MeshNode
  unfolding is_ban_round execute_ban write_journal commit_key record_proof report_verdict respond
  execute_received msg m =
      let now_us = w.now m.outputs / 1000 in
      let commit_sig = get_round_commit_sig (commit_key w msg.evidence_json msg.target_id) m.pbft in
      let proved : MeshNode =
        record_proof w msg commit_sig
          (write_journal w (codes "EXECUTED") msg.target_id msg.evidence_json m) in
      let proof_json : Text =
        codes "{\"proof_chain\":" ++ (get_latest_json proved.proof_chain ++ codes "}") in
      if bans w msg
      then execute_ban w msg m
      else if ltb (peer_count m.peers) 1
      then m
      else respond w msg (report_verdict msg now_us proof_json proved)

  -- What the node does with a vote that it has counted.
  unfoldable pub react : P2pMessage → MeshNode × PbftStage → MeshNode
  unfolding broadcast_pbft_stage on_commit execute_received
  react msg (m, PbftStage.prepare) =
      broadcast_pbft_stage w (vote_fuel w) stage_prepare msg.target_id msg.evidence_json m
  react msg (m, PbftStage.commit) =
      broadcast_pbft_stage w (vote_fuel w) stage_commit msg.target_id msg.evidence_json
        (on_commit w msg.target_id msg.evidence_json m)
  react msg (m, PbftStage.executed) = execute_received msg m
  react msg (m, PbftStage.idle) = m
  react msg (m, PbftStage.pre_prepare) = m
  react msg (m, PbftStage.ban_peer) = m

  -- A vote against the node itself sets the time of the last attack on it.
  unfoldable pub note_target : P2pMessage → MeshNode → MeshNode
  note_target msg m =
      if text_eq msg.target_id m.node_id then record m { last_targeted_at = w.now m.outputs } else m

  unfoldable pub process_vote : List Text → MeshNode → MeshNode
  unfolding parse_vote note_target count_vote react
  process_vote tokens m = elim (parse_vote m.max_evidence_size tokens) [
    | none ↦ m
    | some msg ↦
        if text_eq msg.sender_id m.node_id
        then m
        else react msg (count_vote w msg (note_target msg m))
  ]
