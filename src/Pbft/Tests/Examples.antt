-- ===== src/Pbft/Tests/Examples.antt =====
-- The theorems on consensus/PBFT.hpp at concrete inputs.
use neuro_mesh.Prelude.{
  ◌≤◌, ◌<◌, ◌≡◌, ◌≢◌, ◌↔◌, ◌⊎◌, refl, true, false, not, none, some, List, [], ◌∷◌, Text, codes,
  text_key, nat_key, text_eq, text_lt, length, keep_if, arith,
}
use neuro_mesh.Prelude.Decimal.{to_text, int_to_text}
use neuro_mesh.Prelude.Dict.{contains, lookup, insert, add, erase, remove}
use neuro_mesh.Prelude.Int.{pos}
use neuro_mesh.Pbft.Advance.Rates.{arrive_all, arrive_all-limit, RateLog}
use neuro_mesh.Pbft.Advance.{
  stage_prepare, stage_commit, compute_message_hash, check_rate_limit, slide_window, timestamps_of,
  cleanup_stale_rounds, sweep, sweep_round, remember, trim_history, note_equivocation,
  detect_equivocation, recent,
}
use neuro_mesh.Pbft.Calls.Bans.{run_banned, is_from}
use neuro_mesh.Pbft.Calls.{Call, run}
use neuro_mesh.Pbft.Registry.{init, register_peer_key, round_key_of, round_of, ban_peer_local}
use neuro_mesh.Pbft.Settings.{int_setting}
use neuro_mesh.Pbft.Tests.{toy, four_nodes, vote, almost, last_vote}
use neuro_mesh.Pbft.Trust.{trust_of}
use neuro_mesh.Pbft.Types.{PbftConsensus, PbftStage, P2pMessage, quorum_size, new_trust}
use neuro_mesh.Pbft.Verify.Forged.{verify_all, verify_all-Forged, IsOut, Suspect}
use neuro_mesh.Pbft.Verify.Outcome.{Chains, IsClose, verify_message-accepts}
use neuro_mesh.Pbft.Verify.{verify_message, signed_blob, history_of}
use neuro_mesh.Pbft.Vote.Frame.{advance_state-states, state_after}
use neuro_mesh.Pbft.Vote.Safety.{advance_state-executed, advance_state-RoundMoved, RoundMoved}
use neuro_mesh.Pbft.Vote.{
  advance_state, admit_message, count_message, cast_vote, advance_round, settle, opened,
  decide_move, verify_quorum_intersection, stages_intersect, set_voters, voters_of, voters_in,
  common,
}
use neuro_mesh.Crypto.{PublicKey}

abbrev round_key : Text
round_key = codes "e|x"

abbrev done : PbftConsensus
done = (advance_state toy 0 last_vote almost).0

executes : (advance_state toy 0 last_vote almost).1 ≡ PbftStage.executed
unfolding advance_state admit_message count_message cast_vote advance_round settle opened
    decide_move int_setting verify_quorum_intersection stages_intersect set_voters voters_of
    voters_in init register_peer_key contains lookup insert add erase remove compute_message_hash
    check_rate_limit slide_window timestamps_of cleanup_stale_rounds sweep sweep_round remember
    trim_history note_equivocation detect_equivocation round_key_of round_of quorum_size history_of
    to_text int_to_text text_eq text_lt
executes = refl

moves : (advance_state toy 0 last_vote almost).1 ≢ PbftStage.idle
unfolding advance_state admit_message count_message cast_vote advance_round settle opened
    decide_move int_setting verify_quorum_intersection stages_intersect set_voters voters_of
    voters_in init register_peer_key contains lookup insert add erase remove compute_message_hash
    check_rate_limit slide_window timestamps_of cleanup_stale_rounds sweep sweep_round remember
    trim_history note_equivocation detect_equivocation round_key_of round_of quorum_size history_of
    to_text int_to_text text_eq text_lt
moves e = absurd (ground arith)

advance_state-executed_example :
    (last_vote.stage_str ≡ stage_commit)
    × ((round_of (round_key_of toy (codes "e") (codes "x")) (cleanup_stale_rounds 0 almost)).state
        ≡ PbftStage.commit)
    × (quorum_size done
        ≤ length (voters_of (round_key_of toy (codes "e") (codes "x")) stage_commit done))
    × ((length (voters_of (round_key_of toy (codes "e") (codes "x")) stage_prepare done)
          < quorum_size done)
        ⊎ (quorum_size done
            ≤ common
                (voters_of (round_key_of toy (codes "e") (codes "x")) stage_prepare done)
                (voters_of (round_key_of toy (codes "e") (codes "x")) stage_commit done)))
advance_state-executed_example = advance_state-executed toy 0 last_vote almost executes

advance_state-RoundMoved_example :
    (contains (codes "c") almost.banned_peers ≡ false)
    × (lookup (codes "c") almost.peer_public_keys ≢ none)
    × RoundMoved toy 0 last_vote almost done (advance_state toy 0 last_vote almost).1
advance_state-RoundMoved_example = advance_state-RoundMoved toy 0 last_vote almost moves

advance_state-states_example :
    (done ≡ almost)
    ⊎ ((round_of round_key done).state
        ≡ state_after round_key
            (round_key_of toy (codes "e") (codes "x"))
            (round_of round_key (cleanup_stale_rounds 0 almost)).state
            (advance_state toy 0 last_vote almost).1)
advance_state-states_example = advance_state-states toy 0 last_vote almost round_key

-- A sender whose first message is kept, and a second message of it that names its hash.
abbrev heard_once : PbftConsensus
heard_once = record four_nodes { message_history = (codes "a", (1, codes "h") ∷ []) ∷ [] }

abbrev signed : P2pMessage
signed = record (vote stage_prepare (codes "a") 2) {
  signature = codes "PREPARE|x|e|2|0|h";
  prev_message_hash = codes "h";
}

verify_message-accepts_example : ((verify_message toy 0 signed heard_once).1 ≡ true) ↔ (
    (contains (codes "a") heard_once.banned_peers ≡ false)
    × ((key : PublicKey) × (lookup (codes "a") heard_once.peer_public_keys ≡ some key)
        × (toy.verify_signature key (signed_blob signed) signed.signature ≡ true))
    × ((history_of (codes "a") heard_once ≡ [])
        ⊎ (Chains heard_once.genesis_hash signed (history_of (codes "a") heard_once)
            × IsClose 2 (history_of (codes "a") heard_once))))
verify_message-accepts_example = verify_message-accepts toy 0 signed heard_once

-- A peer with 98 failures.
abbrev watched : PbftConsensus
watched = record four_nodes {
  node_trust = (codes "a", record new_trust { consecutive_failures = 98 }) ∷ [];
}

watched-Suspect : Suspect toy (codes "a") (some (codes "A")) 98 watched
unfolding lookup contains trust_of text_eq text_lt init register_peer_key insert add
watched-Suspect = record { has_key = refl; free = refl; failures = refl }

abbrev forged : P2pMessage
forged = vote stage_prepare (codes "a") 1

forged-bad : toy.verify_signature (some (codes "A")) (signed_blob forged) [] ≡ false
unfolding signed_blob text_eq
forged-bad = refl

verify_all-Forged_example :
    IsOut toy
      (codes "a")
      (some (codes "A"))
      (verify_all toy ((0, forged) ∷ (1, forged) ∷ []) watched)
verify_all-Forged_example =
    verify_all-Forged toy (codes "a") (some (codes "A")) ((0, forged) ∷ (1, forged) ∷ []) 98 watched
      watched-Suspect ((refl, forged-bad), ((refl, forged-bad), tt)) (omega arith) (omega arith)

abbrev banned : PbftConsensus
banned = ban_peer_local (codes "c") four_nodes

banned-c : contains (codes "c") banned.banned_peers ≡ true
unfolding ban_peer_local contains add text_eq init register_peer_key
banned-c = refl

abbrev calls : List Call
calls = Call.advance 0 last_vote ∷ Call.verify 0 signed ∷ Call.advance 1 signed ∷ []

run_banned_example :
    (contains (codes "c") (run toy calls banned).banned_peers ≡ true)
    × (run toy calls banned
        ≡ run toy (keep_if (λ call. not (is_from (codes "c") call)) calls) banned)
run_banned_example = run_banned (codes "c") toy calls banned banned-c

abbrev six : PbftConsensus
six = record four_nodes { total_nodes = pos 6 }

abbrev window_log : RateLog
window_log =
    arrive_all 10 2 (0 ∷ 1000000000 ∷ 2000000000 ∷ 11000000000 ∷ [])
      (record { accepted = []; timestamps = [] })

arrive_all-limit_example : length (recent 12000000000 10 window_log.accepted) ≤ 2
arrive_all-limit_example =
    arrive_all-limit 10 2 (0 ∷ 1000000000 ∷ 2000000000 ∷ 11000000000 ∷ []) 12000000000
      (omega arith, (omega arith, (omega arith, (omega arith, tt)))) (omega arith)
