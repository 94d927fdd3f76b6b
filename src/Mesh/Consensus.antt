-- ===== src/Mesh/Consensus.antt =====
-- Consensus in consensus/MeshNode.cpp: the node's own votes, the votes that it counts, and what it
-- does when a round prepares, commits or executes.
pub mod Rounds
pub mod Bans
use neuro_mesh.Prelude.{
  ℕ, zero, suc, ◌+◌, ◌/◌, ◌%◌, ◌^◌, Bool, true, false, not, ◌&&◌, ◌||◌, Option, none, some, List,
  [], ◌∷◌, ◌++◌, Text, codes, text_eq, is_empty, if◌then◌else◌, ltb, ◌==◌,
}
use neuro_mesh.Prelude.Decimal.{to_text}
use neuro_mesh.Prelude.Int.{ℤ, pos, negsuc}
use neuro_mesh.Prelude.Search.{contains_text}
use neuro_mesh.Common.Base64.{base64_encode}
use neuro_mesh.Common.StateJournal
use neuro_mesh.Pbft.Registry.{
  bar, ban_peer_local, is_banned, get_last_sent_hash, set_round_commit_sig, get_round_commit_sig,
}
use neuro_mesh.Pbft.Types.{PbftConsensus, PbftStage, P2pMessage, quorum_size}
use neuro_mesh.Pbft.Advance.{stage_pre_prepare, stage_prepare, stage_commit, stage_ban_peer}
use neuro_mesh.Pbft.Verify.{sign_message, verify_message}
use neuro_mesh.Pbft.Vote.{advance_state}
use neuro_mesh.Peers.Registry.{
  get_all_peer_ids, get_peer_tls_fd, set_peer_tls_fd, peer_count, is_on_cooldown, set_cooldown,
}
use neuro_mesh.ProofChain
use neuro_mesh.ProofChain.{ProofEventType}
use neuro_mesh.ProofChain.Printed.{get_latest_json}
use neuro_mesh.Mesh.Types.{MeshNode, World, Output, give}
use neuro_mesh.Mesh.Wire.{vote_payload}

-- `evidence_json.find("\"action\":\"ban\"") != npos`
unfoldable pub is_ban_round : Text → Bool
unfolding contains_text
is_ban_round evidence_json = contains_text (codes "\"action\":\"ban\"") evidence_json

-- The pushes to the bridge.
unfoldable pub spike_json : Text → ℕ → Text
unfolding to_text
spike_json target_id quorum =
    codes "{\"event\":\"entropy_spike\",\"value\":0.98,\"threshold\":0.65,\"target\":\""
    ++ (target_id
        ++ (codes "\",\"quorum\":"
            ++ (to_text quorum
                ++ codes ",\"mitre_attack\":[\"T1059\",\"T1021\",\"T1571\",\"T1090\"]}")))

unfoldable pub flagged_json : Text → Text
flagged_json target_id =
    codes "{\"event\":\"heartbeat\",\"node\":\""
    ++ (target_id
        ++ (codes "\",\"threat\":\"CRITICAL\",\"status\":\"FLAGGED\",\"entropy\":0.98,\"cpu\":85.5,"
            ++ codes
                "\"mem_mb\":512,\"peers\":0,\"mitre_attack\":[\"T1059\",\"T1021\",\"T1571\"]}"))

unfoldable pub push : Text → MeshNode → MeshNode
push json m = if m.has_bridge then give (Output.push_telemetry json) m else m

unfoldable pub push_spike : Text → MeshNode → MeshNode
unfolding spike_json push
push_spike target_id m = push (spike_json target_id (quorum_size m.pbft)) m

-- The packet of a vote.
unfoldable pub payload_of : P2pMessage → Text
unfolding vote_payload
payload_of msg =
    vote_payload msg.stage_str msg.sender_id msg.sequence_number msg.view msg.target_id
      (base64_encode msg.evidence_json) msg.prev_message_hash (base64_encode msg.signature)

module _ (w : World) where
  open w use {platform}

  unfoldable pub write_journal : Text → Text → Text → MeshNode → MeshNode
  write_journal stage target_id evidence_json m = record m {
    journal =
        (StateJournal.append platform.sha256_hex (w.file_calls m.outputs) (w.wall_ms m.outputs)
          stage target_id evidence_json m.journal).0;
  }

  -- The text that the node hashes for the key of a round; no other text stands in for a failed hash.
  unfoldable pub commit_key : Text → Text → Text
  commit_key evidence_json target_id = platform.sha256_hex (evidence_json ++ (bar ++ target_id))

  -- The node's next vote, signed, and the signature noted in the round if it is a commit.
  unfoldable pub own_vote : Text → Text → Text → MeshNode → MeshNode × P2pMessage
  unfolding commit_key
  own_vote stage_str target_id evidence_json m =
      let seq = (m.sequence_number + 1) % 2 ^ 64 in
      let unsigned : P2pMessage = record {
        stage_str = stage_str;
        sender_id = m.node_id;
        target_id = target_id;
        evidence_json = evidence_json;
        signature = [];
        prev_message_hash = get_last_sent_hash m.node_id m.pbft;
        sequence_number = seq;
        view = pos m.pbft.current_view;
      } in
      let signature = sign_message platform unsigned m.pbft in
      let noted : PbftConsensus =
        if text_eq stage_str stage_commit
        then set_round_commit_sig (commit_key evidence_json target_id) signature m.pbft
        else m.pbft in
      (record m { sequence_number = seq; pbft = noted }, record unsigned { signature = signature })

  -- One round of the loop over the peers: a connection that does not take the whole payload is
  -- forgotten.
  unfoldable pub send_to_peer : Text → Text → MeshNode → MeshNode
  send_to_peer payload peer_id m = elim (get_peer_tls_fd peer_id m.peers) [
    | none ↦ m
    | some fd ↦ if not m.has_transport then m else record m {
      outputs = Output.tls_send fd payload ∷ m.outputs;
      peers =
          if w.sends m.outputs fd payload
          then m.peers
          else set_peer_tls_fd peer_id (negsuc 0) m.peers;
    }
  ]

  unfoldable pub send_to_peers : Text → List Text → MeshNode → MeshNode
  unfolding send_to_peer
  send_to_peers payload [] m = m
  send_to_peers payload (peer_id ∷ peer_ids) m =
      send_to_peers payload peer_ids (send_to_peer payload peer_id m)

  -- A payload goes to the peers with a connection, and to the subnet.
  unfoldable pub send_payload : Text → MeshNode → MeshNode
  unfolding send_to_peers
  send_payload payload m =
      give (Output.broadcast payload) (send_to_peers payload (get_all_peer_ids platform m.peers) m)

  -- Verifies a vote and counts it; a vote that does not verify moves nothing.
  unfoldable pub count_vote : P2pMessage → MeshNode → MeshNode × PbftStage
  count_vote msg m =
      let now = w.now m.outputs in
      let (seen, ok) = verify_message platform now msg m.pbft in
      let (advanced, stage) = advance_state platform now msg seen in
      if ok
      then (record m { pbft = advanced }, stage)
      else (record m { pbft = seen }, PbftStage.idle)

  -- A round that commits.
  unfoldable pub on_commit : Text → Text → MeshNode → MeshNode
  unfolding push_spike write_journal
  on_commit target_id evidence_json m =
      push_spike target_id (write_journal stage_commit target_id evidence_json m)

  -- A ban round that executes.
  unfoldable pub execute_ban : P2pMessage → MeshNode → MeshNode
  unfolding write_journal
  execute_ban msg m =
      write_journal (codes "BAN_PEER_EXECUTED") msg.target_id msg.evidence_json
        (record m { pbft = ban_peer_local msg.target_id m.pbft })

  abbrev pub bans : P2pMessage → Bool
  bans msg = is_ban_round msg.evidence_json || text_eq msg.stage_str stage_ban_peer

  -- A link of the proof chain for the verdict, and its export.
  unfoldable pub record_proof : P2pMessage → Text → MeshNode → MeshNode
  record_proof msg commit_sig m = give Output.export_file (record m {
    proof_chain =
        ProofChain.append w.digest (pos (w.now m.outputs / 1000)) ProofEventType.consensus_reached
          msg.target_id msg.evidence_json commit_sig m.proof_chain;
  })

  unfoldable pub respond : P2pMessage → MeshNode → MeshNode
  respond msg m =
      if m.has_mitigation then give (Output.respond msg.evidence_json msg.target_id) m else m

  -- A round that executes with the node's own vote.
  unfoldable pub execute_own : P2pMessage → MeshNode → MeshNode
  unfolding is_ban_round execute_ban write_journal record_proof respond
  execute_own msg m =
      if bans msg
      then execute_ban msg m
      else if ltb (peer_count m.peers) 1
      then m
      else respond msg (
          record_proof msg msg.signature
            (write_journal (codes "EXECUTED") msg.target_id msg.evidence_json m))

  -- What follows a vote of the node's own that was counted: a vote that moves the round is followed by
  -- the vote of the next stage, which `next` casts.
  unfoldable pub follow :
      (Text → MeshNode → MeshNode) → P2pMessage → MeshNode × PbftStage → MeshNode
  unfolding on_commit execute_own
  follow next msg (m, PbftStage.prepare) = next stage_prepare m
  follow next msg (m, PbftStage.commit) =
      next stage_commit (on_commit msg.target_id msg.evidence_json m)
  follow next msg (m, PbftStage.executed) = execute_own msg m
  follow next msg (m, PbftStage.idle) = m
  follow next msg (m, PbftStage.pre_prepare) = m
  follow next msg (m, PbftStage.ban_peer) = m

  unfoldable pub broadcast_pbft_stage : ℕ → Text → Text → Text → MeshNode → MeshNode
  unfolding own_vote payload_of send_payload count_vote follow
  broadcast_pbft_stage zero stage_str target_id evidence_json m = m
  broadcast_pbft_stage (suc fuel) stage_str target_id evidence_json m =
      let (voting, msg) = own_vote stage_str target_id evidence_json m in
      follow (λ stage counted. broadcast_pbft_stage fuel stage target_id evidence_json counted) msg
        (count_vote msg (send_payload (payload_of msg) voting))

  -- The rounds of votes that one call may start.
  abbrev pub vote_fuel : ℕ
  vote_fuel = 3

  unfoldable pub initiate_consensus : Text → Text → MeshNode → MeshNode
  unfolding broadcast_pbft_stage
  initiate_consensus target_id evidence_json m =
      let now = w.now m.outputs in
      if is_on_cooldown now target_id m.peers
      then m
      else broadcast_pbft_stage vote_fuel stage_pre_prepare target_id evidence_json
          (record m { peers = set_cooldown now target_id m.peers })

  unfoldable pub propose_ban : Text → Text → MeshNode → MeshNode × Bool
  unfolding broadcast_pbft_stage write_journal
  propose_ban target_id reason m =
      let evidence : Text = codes "{\"action\":\"ban\",\"reason\":\"" ++ (reason ++ codes "\"}") in
      let proposed = broadcast_pbft_stage vote_fuel stage_pre_prepare target_id evidence m in
      if is_empty target_id || text_eq target_id m.node_id
      then (m, false)
      else if is_banned target_id proposed.pbft
      then (proposed, true)
      else (
        write_journal (codes "BAN_PEER_LOCAL") target_id reason
            (record proposed { pbft = ban_peer_local target_id proposed.pbft }),
        true,
      )
