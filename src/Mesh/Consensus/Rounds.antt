-- ===== src/Mesh/Consensus/Rounds.antt =====
-- Which stages follow a vote in consensus/MeshNode.cpp, and that the votes of a node end.
use neuro_mesh.Prelude.{
  ℕ, zero, suc, ◌≡◌, refl, Bool, true, ◌&&◌, ◌||◌, Text, text_eq, text_eq_iff, text_key, leb,
  length, ◌⊎◌, inl, inr, arith, if_intro, if_elim, option_elim, Bool-cases,
}
use neuro_mesh.Prelude.Dict.{lookup, contains, add}
use neuro_mesh.Prelude.Int.{eq_ℤ}
use neuro_mesh.Pbft.Advance.{
  stage_pre_prepare, stage_prepare, stage_commit, stage_ban_peer, compute_message_hash,
  check_rate_limit, cleanup_stale_rounds, detect_equivocation, remember,
}
use neuro_mesh.Pbft.Registry.{round_key_of, round_of}
use neuro_mesh.Pbft.Types.{
  PbftConsensus, PbftStage, P2pMessage, Platform, ConsensusRound, quorum_size,
}
use neuro_mesh.Pbft.Verify.{verify_message}
use neuro_mesh.Pbft.Vote.{
  Verdict, stays, moves, parts, is_stage, voters_of, set_voters, verify_quorum_intersection,
  decide_move, opened, settle, advance_round, cast_vote, count_message, admit_message,
  advance_state,
}
use neuro_mesh.Mesh.Types.{MeshNode, World}
use neuro_mesh.Mesh.Consensus.{
  own_vote, send_payload, payload_of, count_vote, follow, broadcast_pbft_stage, vote_fuel,
}

-- What a vote with some stage in it can move a round to.
abbrev pub Reports : Text → PbftStage → Type 0
Reports stage PbftStage.idle = Unit
Reports stage PbftStage.prepare = (stage ≡ stage_pre_prepare) ⊎ (stage ≡ stage_ban_peer)
Reports stage PbftStage.commit = stage ≡ stage_prepare
Reports stage PbftStage.executed = stage ≡ stage_commit
Reports stage PbftStage.pre_prepare = ⊥
Reports stage PbftStage.ban_peer = ⊥

abbrev Decides : Text → Verdict → Type 0
Decides stage stays = Unit
Decides stage (moves next) = Reports stage next
Decides stage parts = Unit

and_first : (a b : Bool) → (a && b) ≡ true → a ≡ true
and_first a b h = ground arith

is_either :
    (s a b : Text) (c : Bool) → ((text_eq s a || text_eq s b) && c) ≡ true → (s ≡ a) ⊎ (s ≡ b)
is_either s a b c h = elim (Bool-cases (text_eq s a)) [
  | inl first ↦ inl ((text_eq_iff s a).0 first)
  | inr other ↦ inr ((text_eq_iff s b).0 (ground arith))
]

decide_move-Decides :
    (stage : Text) (votes quorum : ℕ) (overlap : Bool) (state : PbftStage)
    → Decides stage (decide_move stage votes quorum overlap state)
unfolding decide_move
decide_move-Decides stage votes quorum overlap state =
    let reached : Bool = leb quorum votes in
    if_elim (Decides stage)
      ((text_eq stage stage_pre_prepare || text_eq stage stage_ban_peer)
        && is_stage state PbftStage.idle)
      (λ h. is_either stage stage_pre_prepare stage_ban_peer (is_stage state PbftStage.idle) h)
      (λ h.
        if_elim (Decides stage)
          (text_eq stage stage_prepare && reached && is_stage state PbftStage.prepare)
          (λ k.
            (text_eq_iff stage stage_prepare).0
              (and_first _ reached (and_first _ (is_stage state PbftStage.prepare) k)))
          (λ k.
            if_elim (Decides stage)
              (text_eq stage stage_commit && reached && is_stage state PbftStage.commit)
              (λ l.
                if_intro (Decides stage) overlap
                  ((text_eq_iff stage stage_commit).0
                    (and_first _ reached (and_first _ (is_stage state PbftStage.commit) l)))
                  tt)
              (λ l. tt)))

settle-Reports :
    (msg : P2pMessage) (key : Text) (round : ConsensusRound) (v : Verdict) (p : PbftConsensus)
    → Decides msg.stage_str v
    → Reports msg.stage_str (settle msg key round v p).1
unfolding settle
settle-Reports msg key round stays p d = tt
settle-Reports msg key round (moves stage) p d = d
settle-Reports msg key round parts p d = tt

module _ (now : ℕ) (msg : P2pMessage) where
  abbrev Told : PbftConsensus × PbftStage → Type 0
  Told r = Reports msg.stage_str r.1

  advance_round-Told :
      (hash key : Text) (p : PbftConsensus) → Told (advance_round now msg hash key p)
  unfolding advance_round
  advance_round-Told hash key p =
      let round : ConsensusRound = opened now msg hash key (round_of key p) in
      if_intro Told (eq_ℤ round.view msg.view)
        (settle-Reports msg key (record round { last_activity = now }) _ p
          (decide_move-Decides msg.stage_str (length (voters_of key msg.stage_str p))
            (quorum_size p) (verify_quorum_intersection key p) round.state))
        tt

  cast_vote-Told : (hash key : Text) (p : PbftConsensus) → Told (cast_vote now msg hash key p)
  unfolding cast_vote
  cast_vote-Told hash key p =
      if_intro Told (contains msg.sender_id (voters_of key msg.stage_str p)) tt (
        advance_round-Told hash key
          (set_voters key msg.stage_str (add msg.sender_id (voters_of key msg.stage_str p)) p))

  count_message-Told : (env : Platform) (p : PbftConsensus) → Told (count_message env now msg p)
  unfolding count_message
  count_message-Told env p =
      let hash : Text = compute_message_hash env msg in
      if_intro Told (contains hash p.seen_messages) tt (
        cast_vote-Told hash (round_key_of env msg.evidence_json msg.target_id) (
          detect_equivocation now msg hash
            (record p { seen_messages = remember env hash p.seen_messages })))

  -- A vote that is counted moves its round to PREPARE only if it is a proposal, to COMMIT only if it is
  -- a PREPARE vote, and to EXECUTED only if it is a COMMIT vote.
  pub advance_state-Reports :
      (env : Platform) (p : PbftConsensus) → Reports msg.stage_str (advance_state env now msg p).1
  unfolding advance_state admit_message
  advance_state-Reports env p =
      let limited = check_rate_limit now msg.sender_id (cleanup_stale_rounds now p) in
      if_intro Told (contains msg.sender_id p.banned_peers) tt (
        option_elim Told (lookup msg.sender_id p.peer_public_keys) (λ e. tt)
          (λ pem e. if_intro Told limited.1 (count_message-Told env limited.0) tt))

count_vote-Reports :
    (w : World) (msg : P2pMessage) (m : MeshNode) → Reports msg.stage_str (count_vote w msg m).1
unfolding count_vote
count_vote-Reports w msg m =
    let now = w.now m.outputs in
    let seen = verify_message w.platform now msg m.pbft in
    if_intro (λ (r : MeshNode × PbftStage). Reports msg.stage_str r.1) seen.1
      (advance_state-Reports now msg w.platform seen.0) tt

follow-agree :
    (w : World) (msg : P2pMessage) (f g : Text → MeshNode → MeshNode) (r : MeshNode × PbftStage)
    → Reports msg.stage_str r.1
    → ((msg.stage_str ≡ stage_pre_prepare) ⊎ (msg.stage_str ≡ stage_ban_peer)
        → (n : MeshNode) → f stage_prepare n ≡ g stage_prepare n)
    → (msg.stage_str ≡ stage_prepare → (n : MeshNode) → f stage_commit n ≡ g stage_commit n)
    → follow w f msg r ≡ follow w g msg r
unfolding follow
follow-agree w msg f g (n, PbftStage.prepare) h p c = p h n
follow-agree w msg f g (n, PbftStage.commit) h p c = c h _
follow-agree w msg f g (n, PbftStage.executed) h p c = refl
follow-agree w msg f g (n, PbftStage.idle) h p c = refl
follow-agree w msg f g (n, PbftStage.pre_prepare) h p c = refl
follow-agree w msg f g (n, PbftStage.ban_peer) h p c = refl

module _ (w : World) (target evidence : Text) where
  -- Two amounts of fuel agree on the next votes, so one more agrees on this one.
  step-agree :
      (a b : ℕ) (stage : Text) (m : MeshNode)
      → ((stage ≡ stage_pre_prepare) ⊎ (stage ≡ stage_ban_peer)
          → (n : MeshNode)
          → broadcast_pbft_stage w a stage_prepare target evidence n
            ≡ broadcast_pbft_stage w b stage_prepare target evidence n)
      → (stage ≡ stage_prepare
          → (n : MeshNode)
          → broadcast_pbft_stage w a stage_commit target evidence n
            ≡ broadcast_pbft_stage w b stage_commit target evidence n)
      → broadcast_pbft_stage w (suc a) stage target evidence m
        ≡ broadcast_pbft_stage w (suc b) stage target evidence m
  unfolding broadcast_pbft_stage own_vote
  step-agree a b stage m p c =
      let (voting, msg) = own_vote w stage target evidence m in
      follow-agree w msg (λ (s : Text) (n : MeshNode). broadcast_pbft_stage w a s target evidence n)
        (λ (s : Text) (n : MeshNode). broadcast_pbft_stage w b s target evidence n)
        (count_vote w msg (send_payload w (payload_of msg) voting))
        (count_vote-Reports w msg (send_payload w (payload_of msg) voting)) p c

  commit-agree :
      (a b : ℕ) (m : MeshNode)
      → broadcast_pbft_stage w (suc a) stage_commit target evidence m
        ≡ broadcast_pbft_stage w (suc b) stage_commit target evidence m
  commit-agree a b m =
      step-agree a b stage_commit m (λ h. absurd (ground arith)) (λ h. absurd (ground arith))

  prepare-agree :
      (a b : ℕ) (m : MeshNode)
      → broadcast_pbft_stage w (suc (suc a)) stage_prepare target evidence m
        ≡ broadcast_pbft_stage w (suc (suc b)) stage_prepare target evidence m
  prepare-agree a b m =
      step-agree (suc a) (suc b) stage_prepare m (λ h. absurd (ground arith))
        (λ h n. commit-agree a b n)

  -- Three votes in a row are enough: with more fuel the broadcast of a stage ends in the same state,
  -- since a proposal is followed by a PREPARE vote at most, that by a COMMIT vote, and that by none.
  pub broadcast_pbft_stage-enough :
      (k : ℕ) (stage : Text) (m : MeshNode)
      → broadcast_pbft_stage w (suc (suc (suc k))) stage target evidence m
        ≡ broadcast_pbft_stage w (vote_fuel w) stage target evidence m
  broadcast_pbft_stage-enough k stage m =
      step-agree (suc (suc k)) (suc (suc zero)) stage m (λ h n. prepare-agree k zero n)
        (λ h n. commit-agree (suc k) (suc zero) n)
