-- ===== src/Pbft/Vote/Frame.antt =====
-- The states of the rounds of consensus/PBFT.hpp before and after `advance_state`.
use neuro_mesh.Prelude.{
  ℕ, ◌≡◌, ◌≢◌, ◌⊎◌, inl, inr, Bool, ◌&&◌, not, ◌∙◌, ap, List, Text, text_key, text_eq, text_eq_iff,
  if◌then◌else◌, arith, Bool-cases, length,
}
use neuro_mesh.Prelude.Dict.{contains, add, remove}
use neuro_mesh.Prelude.Int.{eq_ℤ}
use neuro_mesh.Pbft.Advance.{compute_message_hash, cleanup_stale_rounds}
use neuro_mesh.Pbft.Registry.{round_key_of, round_of, prune_peer}
use neuro_mesh.Pbft.Trust.{record_failure, auto_ban, count_failure}
use neuro_mesh.Pbft.Types.{
  PbftConsensus, PbftStage, P2pMessage, Platform, ConsensusRound, quorum_size,
}
use neuro_mesh.Pbft.Vote.Casts.{
  advance_state_cases, admit_message_cases, count_message_cases, limited, check_rate_limit-Alike,
  remembered-Alike,
}
use neuro_mesh.Pbft.Vote.Moves.{round_of-set_round, decide_move-MovesTo, opened-state}
use neuro_mesh.Pbft.Vote.Safety.{round_of-Alike, round_of-set_voters}
use neuro_mesh.Pbft.Vote.{
  advance_state, cast_vote, advance_round, settle, opened, Verdict, decide_move, voters_of,
  set_voters, verify_quorum_intersection, is_stage,
}

-- The state of the round `k` after a result for the round `key`.
abbrev pub state_after : Text → Text → PbftStage → PbftStage → PbftStage
state_after k key old stage =
    if text_eq k key && not (is_stage stage PbftStage.idle) then stage else old

decide_move-ne-idle :
    (stage : Text) (votes quorum : ℕ) (overlap : Bool) (state : PbftStage)
    → decide_move stage votes quorum overlap state ≢ Verdict.moves PbftStage.idle
decide_move-ne-idle stage votes quorum overlap state e =
    ground (arith, decide_move-MovesTo stage votes quorum overlap state PbftStage.idle e)

module _ (k key : Text) where
  -- Every round but the moved one keeps its state.
  abbrev States : PbftConsensus → PbftConsensus × PbftStage → Type 0
  States p (q, stage) = (round_of k q).state ≡ state_after k key (round_of k p).state stage

  settle-States :
      (msg : P2pMessage) (round : ConsensusRound) (v : Verdict) (p : PbftConsensus)
      → round.state ≡ (round_of key p).state
      → v ≢ Verdict.moves PbftStage.idle
      → States p (settle msg key round v p)
  unfolding settle
  settle-States msg round Verdict.stays p e n =
      ground (arith, round_of-set_round k key round p, text_eq_iff k key)
  settle-States msg round (Verdict.moves stage) p e n =
      ground (arith, round_of-set_round k key (record round { state = stage }) p)
  settle-States msg round Verdict.parts p e n =
      let taken : PbftConsensus =
        set_voters key msg.stage_str (remove msg.sender_id (voters_of key msg.stage_str p)) p in
      ground (
        arith,
        round_of-set_round k key round taken,
        round_of-set_voters k key msg.stage_str
            (remove msg.sender_id (voters_of key msg.stage_str p)) p,
        text_eq_iff k key,
      )

  advance_round-States :
      (now : ℕ) (msg : P2pMessage) (hash : Text) (p : PbftConsensus)
      → States p (advance_round now msg hash key p)
  unfolding advance_round
  advance_round-States now msg hash p =
      let round : ConsensusRound = opened now msg hash key (round_of key p) in
      let same : round.state ≡ (round_of key p).state =
        opened-state now msg hash key (round_of key p) in
      elim (Bool-cases (eq_ℤ round.view msg.view)) [
        | inl view ↦ rw view (
            settle-States msg (record round { last_activity = now }) _ p same
              (decide_move-ne-idle msg.stage_str (length (voters_of key msg.stage_str p))
                (quorum_size p) (verify_quorum_intersection key p) round.state))
        | inr other ↦ rw other (ground (arith, round_of-set_round k key round p, text_eq_iff k key))
      ]

  cast_vote-States :
      (now : ℕ) (msg : P2pMessage) (hash : Text) (p : PbftConsensus)
      → States p (cast_vote now msg hash key p)
  unfolding cast_vote
  cast_vote-States now msg hash p =
      let voters : List Text = voters_of key msg.stage_str p in
      let voted : PbftConsensus = set_voters key msg.stage_str (add msg.sender_id voters) p in
      elim (Bool-cases (contains msg.sender_id voters)) [
        | inl again ↦ rw again (ground arith)
        | inr fresh ↦ rw fresh (
            rw (← round_of-set_voters k key msg.stage_str (add msg.sender_id voters) p)
              (advance_round-States now msg hash voted))
      ]

record_failure-rounds :
    (now : ℕ) (x k : Text) (p : PbftConsensus) → round_of k (record_failure now x p) ≡ round_of k p
unfolding record_failure auto_ban count_failure prune_peer round_of
record_failure-rounds now x k p = ground arith

-- After the sweep of stale rounds, `advance_state` changes the state of one round at most, the one
-- of the message's evidence and target, and only to the stage that it reports.
pub advance_state-states :
    (env : Platform) (now : ℕ) (msg : P2pMessage) (p : PbftConsensus) (k : Text)
    → let (q, stage) = advance_state env now msg p in
      (q ≡ p)
      ⊎ ((round_of k q).state
          ≡ state_after k
              (round_key_of env msg.evidence_json msg.target_id)
              (round_of k (cleanup_stale_rounds now p)).state
              stage)
advance_state-states env now msg p k =
    let key : Text = round_key_of env msg.evidence_json msg.target_id in
    let swept : PbftConsensus = cleanup_stale_rounds now p in
    let at_limit = round_of-Alike k (check_rate_limit-Alike now msg.sender_id swept) in
    elim (advance_state_cases env now msg p) [
      | inl ignored ↦ inl (ap (λ r. r.0) ignored)
      | inr (_, _, admitted) ↦ elim (admit_message_cases env now msg p) [
        | inl refused ↦ inr (
            rw (admitted, refused)
              (ground (arith, record_failure-rounds now msg.sender_id k (limited env now msg p))))
        | inr counted ↦ elim (count_message_cases env now msg (limited env now msg p)) [
          | inl seen ↦ inr (rw (admitted, counted, seen) (ground arith))
          | inr (_, cast) ↦ inr (
              rw (admitted, counted, cast)
                (rw
                  (← round_of-Alike k (remembered-Alike env now msg (limited env now msg p))
                    ∙ at_limit)
                  (cast_vote-States k key now msg (compute_message_hash env msg) _)))
        ]
      ]
    ]
