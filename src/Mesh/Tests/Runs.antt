-- ===== src/Mesh/Tests/Runs.antt =====
-- The theorems on runs of consensus/MeshNode.cpp at concrete inputs.
use neuro_mesh.Prelude.{
  ℕ, ◌+◌, ◌≤◌, ◌≡◌, ◌⊎◌, refl, true, none, some, List, [], ◌∷◌, Text, codes, text_eq, text_lt,
  text_key, length,
}
use neuro_mesh.Prelude.Dict.{Dict, lookup, contains, insert, add, erase, remove}
use neuro_mesh.Pbft.Advance.{
  stage_pre_prepare, stage_commit, compute_message_hash, check_rate_limit, slide_window,
  timestamps_of, cleanup_stale_rounds, sweep, sweep_round, remember, trim_history,
  note_equivocation, detect_equivocation, recent,
}
use neuro_mesh.Pbft.Calls.Invariant.{IsValid}
use neuro_mesh.Pbft.Registry.{round_key_of, round_of, init, register_peer_key, get_last_sent_hash}
use neuro_mesh.Pbft.Settings.{int_setting}
use neuro_mesh.Pbft.Tests.{toy}
use neuro_mesh.Pbft.Types.{PbftStage, ConsensusRound, new_round, quorum_size}
use neuro_mesh.Peers.Types.{rate_limit_map_cap, walk_map}
use neuro_mesh.Mesh.Consensus.{
  broadcast_pbft_stage, vote_fuel, initiate_consensus, own_vote, count_vote, follow, send_payload,
  send_to_peers, send_to_peer,
}
use neuro_mesh.Mesh.Consensus.Rounds.{broadcast_pbft_stage-enough}
use neuro_mesh.Mesh.Histories.Invariants.{handle_all-IsValid}
use neuro_mesh.Mesh.Histories.Voters.{HasVoted, handle_all-HasVoted}
use neuro_mesh.Pbft.Vote.{
  advance_state, admit_message, count_message, cast_vote, advance_round, settle, opened,
  decide_move, verify_quorum_intersection, stages_intersect, set_voters, voters_of, voters_in,
}
use neuro_mesh.Pbft.Verify.{
  verify_message, verify_with_key, sign_message, signed_blob, history_of, chains_from, within_gap,
  greatest_sequence, verify_message_chaining, verify_sequence_continuity,
}
use neuro_mesh.Pbft.Trust.{record_success, trust_of}
use neuro_mesh.Prelude.Decimal.{to_text, int_to_text}
use neuro_mesh.Peers.Registry.{is_on_cooldown, set_cooldown, get_all_peer_ids, get_peer_tls_fd}
use neuro_mesh.Mesh.Responses.Votes.{VoteAnswers, process_vote-VoteAnswers}
use neuro_mesh.Mesh.Start.{Event, construct, handle, handle_all}
use neuro_mesh.Mesh.Tests.{toy_world, toy_node}
use neuro_mesh.Mesh.Types.{MeshNode, World}
use neuro_mesh.Mesh.Upkeep.{check_views}
use neuro_mesh.Mesh.Upkeep.Views.{Stalled, check_views-Stalled}
use neuro_mesh.Mesh.Vote.{process_vote}

broadcast_pbft_stage-enough_example :
    broadcast_pbft_stage toy_world 8 stage_pre_prepare (codes "x") (codes "{}") toy_node
    ≡ broadcast_pbft_stage toy_world
        (vote_fuel toy_world)
        stage_pre_prepare
        (codes "x")
        (codes "{}")
        toy_node
broadcast_pbft_stage-enough_example =
    broadcast_pbft_stage-enough toy_world (codes "x") (codes "{}") 5 stage_pre_prepare toy_node

-- A round about a real anomaly and one about the evidence of the monitor have stood still for an hour.
abbrev late_world : World
late_world = record toy_world { now = λ outputs. 3600000000000 }

abbrev stalled_rounds : Dict Text ConsensusRound
stalled_rounds =
    (codes "{}|b", record new_round { state = PbftStage.prepare })
    ∷ (codes "{\"liveness\":\"check\"}|c", record new_round { state = PbftStage.commit })
    ∷ []

abbrev stalled : MeshNode
stalled = record toy_node { pbft = record toy_node.pbft { rounds = stalled_rounds } }

check_views-Stalled_example :
    (k : ℕ) × Stalled toy 3600000000000 stalled_rounds (codes "b" ∷ codes "c" ∷ []) k
    × (check_views late_world (codes "b" ∷ codes "c" ∷ []) stalled
        ≡ record stalled { pbft = record stalled.pbft { current_view = 0 + k } })
unfolding register_peer_key init
check_views-Stalled_example = check_views-Stalled late_world (codes "b" ∷ codes "c" ∷ []) stalled

abbrev events : List Event
events =
    Event.ban (codes "b") (codes "r")
    ∷ Event.unpinning (codes "b")
    ∷ Event.telemetry (codes "{}")
    ∷ []

-- The node after the events, in whatever state they begin.
abbrev after_events : MeshNode → MeshNode
after_events m = elim (handle_all toy_world events m) [ none ↦ m | some n ↦ n ]

reached : (m : MeshNode) → handle_all toy_world events m ≡ some (after_events m)
unfolding handle_all handle
reached m = refl

-- A proposal of a node that can sign.
abbrev signer : MeshNode
signer = record toy_node { pbft = record toy_node.pbft { private_key = some (codes "key") } }

abbrev proposing : List Event
proposing = Event.consensus (codes "x") (codes "{}") ∷ []

abbrev proposed : MeshNode
proposed = elim (handle_all toy_world proposing signer) [ none ↦ signer | some n ↦ n ]

proposed_reached : handle_all toy_world proposing signer ≡ some proposed
unfolding handle_all handle
proposed_reached = refl

proposer_votes :
    contains (codes "a") (voters_of (codes "{}|x") stage_pre_prepare proposed.pbft) ≡ true
unfolding handle_all handle initiate_consensus broadcast_pbft_stage own_vote count_vote
    verify_message verify_with_key record_success trust_of sign_message signed_blob send_payload
    send_to_peers send_to_peer follow advance_state admit_message count_message cast_vote
    advance_round settle opened decide_move int_setting verify_quorum_intersection stages_intersect
    set_voters voters_of voters_in init register_peer_key contains lookup insert add erase remove
    compute_message_hash check_rate_limit slide_window recent timestamps_of cleanup_stale_rounds
    sweep sweep_round remember trim_history note_equivocation detect_equivocation round_key_of
    round_of quorum_size history_of chains_from within_gap greatest_sequence to_text int_to_text
    text_eq text_lt is_on_cooldown set_cooldown get_all_peer_ids get_peer_tls_fd walk_map
    get_last_sent_hash verify_message_chaining verify_sequence_continuity
proposer_votes = refl

handle_all-HasVoted_example :
    (contains (codes "a") (voters_of (codes "{}|x") stage_pre_prepare signer.pbft) ≡ true)
    ⊎ HasVoted toy signer.pbft proposed.pbft (codes "{}|x") stage_pre_prepare (codes "a")
handle_all-HasVoted_example =
    handle_all-HasVoted toy_world proposing signer proposed (codes "{}|x") stage_pre_prepare
      (codes "a") proposed_reached proposer_votes

abbrev started : MeshNode
started = construct toy none (some (codes "20")) (some (codes "b:QkI=,c:Q0M=")) toy_node

handle_all-IsValid_example :
    IsValid (after_events started).pbft
    × (length (after_events started).peers.rate_limits ≤ rate_limit_map_cap)
handle_all-IsValid_example =
    handle_all-IsValid toy_world none (some (codes "20")) (some (codes "b:QkI=,c:Q0M=")) toy_node
      events (after_events started) (reached started)

abbrev vote_tokens : List Text
vote_tokens =
    codes "VOTE"
    ∷ stage_commit
    ∷ codes "b"
    ∷ codes "1"
    ∷ codes "0"
    ∷ codes "x"
    ∷ codes "e30="
    ∷ codes "00"
    ∷ codes "c2ln"
    ∷ []

process_vote-VoteAnswers_example :
    VoteAnswers toy_world vote_tokens toy_node (process_vote toy_world vote_tokens toy_node)
process_vote-VoteAnswers_example = process_vote-VoteAnswers toy_world vote_tokens toy_node
