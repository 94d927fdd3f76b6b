-- ===== src/Pbft/Calls/Rules.antt =====
-- Proof rules for the two message handlers of consensus/PBFT.hpp, `verify_message` and
-- `advance_state`.
use neuro_mesh.Prelude.{ℕ, Text, text_key, Bool-cases, inl, inr}
use neuro_mesh.Prelude.Dict.{contains, add, remove}
use neuro_mesh.Prelude.Int.{eq_ℤ}
use neuro_mesh.Pbft.Advance.{compute_message_hash, check_rate_limit, cleanup_stale_rounds}
use neuro_mesh.Pbft.Registry.{round_key_of, round_of}
use neuro_mesh.Pbft.Trust.{record_failure, record_success}
use neuro_mesh.Pbft.Types.{PbftConsensus, P2pMessage, Platform, ConsensusRound}
use neuro_mesh.Pbft.Verify.Outcome.{verify_message_cases}
use neuro_mesh.Pbft.Verify.{verify_message}
use neuro_mesh.Pbft.Vote.Casts.{
  advance_state_cases, admit_message_cases, count_message_cases, remembered, limited,
}
use neuro_mesh.Pbft.Vote.{
  advance_state, cast_vote, advance_round, settle, opened, Verdict, voters_of, set_voters,
  set_round,
}

module _ (P : PbftConsensus → Type 0) where
  -- What a vote needs: the voter is added if absent, may be taken out again, and the round changes.
  pub record KeptByVote (msg : P2pMessage) (key : Text) : Type 0 where
    pub added :
        (p : PbftConsensus)
        → P p
        → P (set_voters key msg.stage_str (add msg.sender_id (voters_of key msg.stage_str p)) p)
    pub removed :
        (p : PbftConsensus)
        → P p
        → P (set_voters key msg.stage_str (remove msg.sender_id (voters_of key msg.stage_str p)) p)
    pub round_set : (round : ConsensusRound) (p : PbftConsensus) → P p → P (set_round key round p)

  module _ {msg : P2pMessage} {key : Text} (k : KeptByVote msg key) where
    settle-kept :
        (round : ConsensusRound) (v : Verdict) (p : PbftConsensus)
        → P p
        → P (settle msg key round v p).0
    unfolding settle
    settle-kept round Verdict.stays p h = k.round_set round p h
    settle-kept round (Verdict.moves stage) p h = k.round_set (record round { state = stage }) p h
    settle-kept round Verdict.parts p h = k.round_set round _ (k.removed p h)

    advance_round-kept :
        (now : ℕ) (hash : Text) (p : PbftConsensus) → P p → P (advance_round now msg hash key p).0
    unfolding advance_round
    advance_round-kept now hash p h =
        let round : ConsensusRound = opened now msg hash key (round_of key p) in
        elim (Bool-cases (eq_ℤ round.view msg.view)) [
          | inl same ↦ rw same (settle-kept _ _ p h)
          | inr other ↦ rw other (k.round_set round p h)
        ]

    pub cast_vote-kept :
        (now : ℕ) (hash : Text) (p : PbftConsensus) → P p → P (cast_vote now msg hash key p).0
    unfolding cast_vote
    cast_vote-kept now hash p h =
        elim (Bool-cases (contains msg.sender_id (voters_of key msg.stage_str p))) [
          | inl again ↦ rw again h
          | inr fresh ↦ rw fresh (advance_round-kept now hash _ (k.added p h))
        ]

  -- The parts of `advance_state`.
  pub record KeptByAdvance (env : Platform) (now : ℕ) (msg : P2pMessage) : Type 0 where
    pub swept : (p : PbftConsensus) → P p → P (cleanup_stale_rounds now p)
    pub rated : (p : PbftConsensus) → P p → P (check_rate_limit now msg.sender_id p).0
    pub failed : (p : PbftConsensus) → P p → P (record_failure now msg.sender_id p)
    pub noted : (p : PbftConsensus) → P p → P (remembered env now msg p)
    pub voted : KeptByVote msg (round_key_of env msg.evidence_json msg.target_id)

  module _ {env : Platform} {now : ℕ} {msg : P2pMessage} (k : KeptByAdvance env now msg) where
    pub advance_state-kept : (p : PbftConsensus) → P p → P (advance_state env now msg p).0
    advance_state-kept p h =
        let at_limit : P (limited env now msg p) = k.rated _ (k.swept p h) in
        elim (advance_state_cases env now msg p) [
          | inl ignored ↦ rw ignored h
          | inr (_, _, admitted) ↦ elim (admit_message_cases env now msg p) [
            | inl refused ↦ rw (admitted, refused) (k.failed _ at_limit)
            | inr counted ↦ elim (count_message_cases env now msg (limited env now msg p)) [
              | inl seen ↦ rw (admitted, counted, seen) at_limit
              | inr (_, cast) ↦
                  rw (admitted, counted, cast)
                    (cast_vote-kept k.voted now (compute_message_hash env msg) _
                      (k.noted _ at_limit))
            ]
          ]
        ]

  pub verify_message-kept :
      (env : Platform) (now : ℕ) (msg : P2pMessage) (p : PbftConsensus)
      → (P p → P (record_failure now msg.sender_id p))
      → (P p → P (record_success msg.sender_id p))
      → P p
      → P (verify_message env now msg p).0
  verify_message-kept env now msg p failed succeeded h = elim (verify_message_cases env now msg p) [
    | inl ignored ↦ rw ignored h
    | inr (inl refused) ↦ rw refused (failed h)
    | inr (inr passed) ↦ rw passed (succeeded h)
  ]
