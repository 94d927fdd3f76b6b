-- ===== src/Pbft/Tests/Books.antt =====
-- The theorems on the books that consensus/PBFT.hpp keeps, at concrete inputs.
use neuro_mesh.Prelude.{
  suc, ◌+◌, ◌-◌, ◌%◌, ◌≤◌, ◌≡◌, ◌≢◌, ◌⊎◌, refl, false, none, some, List, [], ◌∷◌, Text, codes,
  text_key, nat_key, text_eq, text_lt, ltb, if◌then◌else◌, arith,
}
use neuro_mesh.Prelude.Decimal.{to_text, int_to_text}
use neuro_mesh.Prelude.Dict.{contains, lookup, insert, add, erase, remove, Distinct}
use neuro_mesh.Prelude.Sets.{Subset}
use neuro_mesh.Pbft.Advance.Equivocation.{detect_equivocation_lem, evidence_of}
use neuro_mesh.Pbft.Advance.Sweeps.{cleanup_stale_rounds-lookup}
use neuro_mesh.Pbft.Advance.{
  stage_pre_prepare, stage_commit, compute_message_hash, check_rate_limit, slide_window,
  timestamps_of, cleanup_stale_rounds, sweep, sweep_round, remember, trim_history,
  note_equivocation, detect_equivocation,
}
use neuro_mesh.Pbft.Quorum.{quorum_overlap}
use neuro_mesh.Pbft.Registry.Prune.{prune_peer-others}
use neuro_mesh.Pbft.Registry.{init, register_peer_key, round_key_of, round_of, prune_peer}
use neuro_mesh.Pbft.Settings.{int_setting}
use neuro_mesh.Pbft.Tests.{four_nodes, vote, almost, after_all}
use neuro_mesh.Pbft.Trust.{trust_of}
use neuro_mesh.Pbft.Types.{PbftConsensus, P2pMessage, quorum_size, round_ttl_sec, elapsed_seconds}
use neuro_mesh.Pbft.Verify.{history_of}
use neuro_mesh.Pbft.Vote.{
  advance_state, admit_message, count_message, cast_vote, advance_round, settle, opened,
  decide_move, verify_quorum_intersection, stages_intersect, set_voters, voters_of, voters_in,
  common,
}

-- Four voters of whom three vote each time.
abbrev four : List Text
four = codes "a" ∷ codes "b" ∷ codes "c" ∷ codes "d" ∷ []

four-Distinct : Distinct four
unfolding contains text_eq
four-Distinct = (refl, (refl, (refl, (refl, tt))))

abc-Distinct : Distinct (codes "a" ∷ codes "b" ∷ codes "c" ∷ [])
unfolding contains text_eq
abc-Distinct = (refl, (refl, (refl, tt)))

bcd-Distinct : Distinct (codes "b" ∷ codes "c" ∷ codes "d" ∷ [])
unfolding contains text_eq
bcd-Distinct = (refl, (refl, (refl, tt)))

abc-Subset : Subset (codes "a" ∷ codes "b" ∷ codes "c" ∷ []) four
unfolding contains
abc-Subset x h = ground arith

bcd-Subset : Subset (codes "b" ∷ codes "c" ∷ codes "d" ∷ []) four
unfolding contains
bcd-Subset x h = ground arith

quorum_overlap_example :
    1 + 1
    ≤ common (codes "a" ∷ codes "b" ∷ codes "c" ∷ []) (codes "b" ∷ codes "c" ∷ codes "d" ∷ [])
      + (4 - 1) % 3
unfolding init register_peer_key quorum_size
quorum_overlap_example =
    quorum_overlap four_nodes four (codes "a" ∷ codes "b" ∷ codes "c" ∷ [])
      (codes "b" ∷ codes "c" ∷ codes "d" ∷ []) 1 refl refl four-Distinct abc-Distinct bcd-Distinct
      abc-Subset bcd-Subset (omega arith) (omega arith)

abbrev seen_once : PbftConsensus
seen_once = after_all (vote stage_pre_prepare (codes "a") 1 ∷ []) four_nodes

abbrev key_of_round : Text
key_of_round = codes "e|x"

-- What the state after one proposal has for its round, and the same a long time later.
cleanup_stale_rounds-lookup_example :
    (lookup key_of_round (cleanup_stale_rounds 200000000000 seen_once).rounds ≡ (
      if ltb round_ttl_sec (elapsed_seconds 200000000000 0)
      then none
      else some (round_of key_of_round seen_once)))
    × (lookup key_of_round (cleanup_stale_rounds 200000000000 seen_once).vote_registry ≡ (
        if ltb round_ttl_sec (elapsed_seconds 200000000000 0)
        then none
        else lookup key_of_round seen_once.vote_registry))
unfolding advance_state admit_message count_message cast_vote advance_round settle opened
    decide_move int_setting verify_quorum_intersection stages_intersect set_voters voters_of
    voters_in init register_peer_key contains lookup insert add erase remove compute_message_hash
    check_rate_limit slide_window timestamps_of cleanup_stale_rounds sweep sweep_round remember
    trim_history note_equivocation detect_equivocation round_key_of round_of quorum_size history_of
    to_text int_to_text text_eq text_lt
cleanup_stale_rounds-lookup_example =
    cleanup_stale_rounds-lookup 200000000000 key_of_round seen_once
      (round_of key_of_round seen_once) (refl, tt) refl

-- The same sender with another evidence under the same number.
abbrev conflicting : P2pMessage
conflicting = record (vote stage_pre_prepare (codes "a") 1) { evidence_json = codes "f" }

abbrev caught : PbftConsensus
caught = detect_equivocation 5 conflicting (codes "h") seen_once

detect_equivocation_lem_example :
    ((old : Text) × (lookup 1 (history_of (codes "a") seen_once) ≡ some old)
      × (old ≢ codes "h")
      × (lookup (codes "a") caught.equivocation_history
          ≡ some (evidence_of 5 conflicting (codes "h") seen_once old))
      × ((trust_of (codes "a") caught).equivocation_count
          ≡ suc (trust_of (codes "a") seen_once).equivocation_count)
      × ((trust_of (codes "a") caught).consecutive_failures
          ≡ suc (trust_of (codes "a") seen_once).consecutive_failures)
      × ((trust_of (codes "a") caught).trust_score
          ≡ (trust_of (codes "a") seen_once).trust_score - 30))
    ⊎ (((lookup 1 (history_of (codes "a") seen_once) ≡ none)
          ⊎ (lookup 1 (history_of (codes "a") seen_once) ≡ some (codes "h")))
        × (caught.equivocation_history ≡ seen_once.equivocation_history)
        × (caught.node_trust ≡ seen_once.node_trust))
detect_equivocation_lem_example = detect_equivocation_lem 5 conflicting (codes "h") seen_once

prune_peer-others_example :
    (lookup (codes "b") (prune_peer (codes "a") almost).peer_public_keys ≡ (
      if text_eq (codes "b") (codes "a") then none else lookup (codes "b") almost.peer_public_keys))
    × (lookup (codes "b") (prune_peer (codes "a") almost).message_history ≡ (
        if text_eq (codes "b") (codes "a")
        then none
        else lookup (codes "b") almost.message_history))
    × (contains (codes "b") (prune_peer (codes "a") almost).registered_peers ≡ (
        if text_eq (codes "b") (codes "a")
        then false
        else contains (codes "b") almost.registered_peers))
    × (contains (codes "b") (voters_of key_of_round stage_commit (prune_peer (codes "a") almost))
        ≡ (if text_eq (codes "b") (codes "a")
            then false
            else contains (codes "b") (voters_of key_of_round stage_commit almost)))
prune_peer-others_example =
    prune_peer-others (codes "a") (codes "b") key_of_round stage_commit almost
