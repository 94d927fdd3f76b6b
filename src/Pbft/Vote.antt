-- ===== src/Pbft/Vote.antt =====
-- The vote and the move of a round in `advance_state` of consensus/PBFT.hpp.
pub mod Moves
pub mod Casts
pub mod Safety
pub mod Frame
pub mod View
pub mod Progress
use neuro_mesh.Prelude.{
  ℕ, ◌+◌, Bool, true, false, ◌&&◌, ◌||◌, Option, none, some, List, [], ◌∷◌, Text, text_key, text_eq,
  if◌then◌else◌, ◌==◌, ltb, leb, length, keep_if,
}
use neuro_mesh.Prelude.Dict.{Dict, lookup, insert, contains, add, remove}
use neuro_mesh.Prelude.Int.{eq_ℤ}
use neuro_mesh.Pbft.Advance.{
  stage_pre_prepare, stage_prepare, stage_commit, stage_ban_peer, compute_message_hash,
  check_rate_limit, cleanup_stale_rounds, remember, detect_equivocation,
}
use neuro_mesh.Pbft.Registry.{round_key_of, round_of}
use neuro_mesh.Pbft.Trust.{record_failure}
use neuro_mesh.Pbft.Types.{
  PbftConsensus, PbftStage, P2pMessage, Platform, ConsensusRound, no_votes, quorum_size,
}

-- The numbers of the enumerators.
abbrev pub stage_code : PbftStage → ℕ
stage_code PbftStage.idle = 0
stage_code PbftStage.pre_prepare = 1
stage_code PbftStage.prepare = 2
stage_code PbftStage.commit = 3
stage_code PbftStage.executed = 4
stage_code PbftStage.ban_peer = 5

abbrev pub is_stage : PbftStage → PbftStage → Bool
is_stage a b = stage_code a == stage_code b

-- `m_vote_registry[round_key]`
unfoldable pub stages_of : Text → PbftConsensus → Dict Text (List Text)
stages_of round_key p = elim (lookup round_key p.vote_registry) [
  | none ↦ no_votes
  | some stages ↦ stages
]

-- `[stage]` of a round's voters
unfoldable pub voters_in : Text → Dict Text (List Text) → List Text
voters_in stage stages = elim (lookup stage stages) [ none ↦ [] | some voters ↦ voters ]

-- `m_vote_registry[round_key][stage]`
unfoldable pub voters_of : Text → Text → PbftConsensus → List Text
unfolding stages_of
voters_of round_key stage p = voters_in stage (stages_of round_key p)

unfoldable pub set_voters : Text → Text → List Text → PbftConsensus → PbftConsensus
unfolding stages_of
set_voters round_key stage voters p = record p {
  vote_registry = insert round_key (insert stage voters (stages_of round_key p)) p.vote_registry;
}

-- The size of `std::set_intersection`.
unfoldable pub common : List Text → List Text → ℕ
common xs ys = length (keep_if (λ x. contains x ys) xs)

unfoldable pub stages_intersect : ℕ → Dict Text (List Text) → Bool
unfolding common
stages_intersect quorum stages = elim (lookup stage_prepare stages) [
  | none ↦ true
  | some prepared ↦
      if ltb (length prepared) quorum then true else elim (lookup stage_commit stages) [
        | none ↦ true
        | some committed ↦ leb quorum (common prepared committed)
      ]
]

unfoldable pub verify_quorum_intersection : Text → PbftConsensus → Bool
verify_quorum_intersection round_key p = elim (lookup round_key p.vote_registry) [
  | none ↦ true
  | some stages ↦ stages_intersect (quorum_size p) stages
]

-- What the chain of tests makes of a vote: the round stays, moves, or the quorums are apart.
pub data Verdict : Type 0 where
  stays : Verdict
  moves : PbftStage → Verdict
  parts : Verdict

unfoldable pub decide_move : Text → ℕ → ℕ → Bool → PbftStage → Verdict
decide_move stage votes quorum overlap state =
    if (text_eq stage stage_pre_prepare || text_eq stage stage_ban_peer)
      && is_stage state PbftStage.idle
    then moves PbftStage.prepare
    else if text_eq stage stage_prepare && leb quorum votes && is_stage state PbftStage.prepare
    then moves PbftStage.commit
    else if text_eq stage stage_commit && leb quorum votes && is_stage state PbftStage.commit
    then (if overlap then moves PbftStage.executed else parts)
    else stays

-- An idle round takes its view and its hash from the message.
unfoldable pub opened : ℕ → P2pMessage → Text → Text → ConsensusRound → ConsensusRound
opened now msg msg_hash round_key round =
    if is_stage round.state PbftStage.idle
    then record round {
      started_at = now;
      view = msg.view;
      pre_prepare_hash = msg_hash;
      evidence_key = round_key;
    }
    else round

abbrev pub set_round : Text → ConsensusRound → PbftConsensus → PbftConsensus
set_round round_key round p = record p { rounds = insert round_key round p.rounds }

-- The result of a verdict on a round; a vote that parts the quorums is taken back.
unfoldable pub settle :
    P2pMessage → Text → ConsensusRound → Verdict → PbftConsensus → PbftConsensus × PbftStage
settle msg round_key round stays p = (set_round round_key round p, PbftStage.idle)
settle msg round_key round (moves stage) p =
    (set_round round_key (record round { state = stage }) p, stage)
settle msg round_key round parts p = (
  set_round round_key round (
      set_voters round_key msg.stage_str
        (remove msg.sender_id (voters_of round_key msg.stage_str p)) p),
  PbftStage.idle,
)

-- From the round on, with the vote counted.
unfoldable pub advance_round :
    ℕ → P2pMessage → Text → Text → PbftConsensus → PbftConsensus × PbftStage
advance_round now msg msg_hash round_key p =
    let round : ConsensusRound = opened now msg msg_hash round_key (round_of round_key p) in
    if eq_ℤ round.view msg.view
    then settle msg round_key (record round { last_activity = now })
        (decide_move msg.stage_str (length (voters_of round_key msg.stage_str p)) (quorum_size p)
          (verify_quorum_intersection round_key p) round.state)
        p
    else (set_round round_key round p, PbftStage.idle)

unfoldable pub cast_vote : ℕ → P2pMessage → Text → Text → PbftConsensus → PbftConsensus × PbftStage
cast_vote now msg msg_hash round_key p =
    if contains msg.sender_id (voters_of round_key msg.stage_str p)
    then (p, PbftStage.idle)
    else advance_round now msg msg_hash round_key (
        set_voters round_key msg.stage_str (add msg.sender_id (voters_of round_key msg.stage_str p))
          p)

-- From the hash on: a message that was seen before counts no second time.
unfoldable pub count_message : Platform → ℕ → P2pMessage → PbftConsensus → PbftConsensus × PbftStage
count_message env now msg p =
    let msg_hash : Text = compute_message_hash env msg in
    let round_key : Text = round_key_of env msg.evidence_json msg.target_id in
    if contains msg_hash p.seen_messages
    then (p, PbftStage.idle)
    else cast_vote now msg msg_hash round_key (
        detect_equivocation now msg msg_hash
          (record p { seen_messages = remember env msg_hash p.seen_messages }))

-- From the sweep on.
unfoldable pub admit_message : Platform → ℕ → P2pMessage → PbftConsensus → PbftConsensus × PbftStage
admit_message env now msg p =
    let (limited, ok) = check_rate_limit now msg.sender_id (cleanup_stale_rounds now p) in
    if ok
    then count_message env now msg limited
    else (record_failure now msg.sender_id limited, PbftStage.idle)

unfoldable pub advance_state : Platform → ℕ → P2pMessage → PbftConsensus → PbftConsensus × PbftStage
advance_state env now msg p =
    if contains msg.sender_id p.banned_peers
    then (p, PbftStage.idle)
    else elim (lookup msg.sender_id p.peer_public_keys) [
      | none ↦ (p, PbftStage.idle)
      | some _ ↦ admit_message env now msg p
    ]
