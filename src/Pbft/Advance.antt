-- ===== src/Pbft/Advance.antt =====
-- `advance_state` of consensus/PBFT.hpp, with the rate limit, the sweep of stale rounds, the
-- detection of equivocation and the intersection of quorums.
pub mod Rates
pub mod Sweeps
pub mod Equivocation
use neuro_mesh.Prelude.{
  ℕ, suc, ◌+◌, ◌-◌, ◌/◌, ◌≡◌, Bool, true, false, not, ◌&&◌, ◌||◌, Option, none, some, List, [], ◌∷◌,
  ◌++◌, Text, codes, text_key, nat_key, text_eq, if◌then◌else◌, ltb, leb, length, drop, keep_if,
}
use neuro_mesh.Prelude.Decimal.{to_text, int_to_text}
use neuro_mesh.Prelude.Dict.{Dict, lookup, insert, erase, contains, add, remove, has_key}
use neuro_mesh.Prelude.Int.{ℤ, eq_ℤ}
use neuro_mesh.Pbft.Registry.{bar, round_key_of, round_of, is_executed}
use neuro_mesh.Pbft.Trust.{record_failure, record_equivocation}
use neuro_mesh.Pbft.Types.{
  PbftConsensus, PbftStage, P2pMessage, Platform, ConsensusRound, EquivocationEvidence, new_round,
  no_votes, elapsed_seconds, round_ttl_sec, max_msg_history_per_sender, max_seen_messages,
  quorum_size,
}
use neuro_mesh.Pbft.Verify.{history_of}

abbrev pub stage_pre_prepare : Text
stage_pre_prepare = codes "PRE_PREPARE"

abbrev pub stage_prepare : Text
stage_prepare = codes "PREPARE"

abbrev pub stage_commit : Text
stage_commit = codes "COMMIT"

abbrev pub stage_ban_peer : Text
stage_ban_peer = codes "BAN_PEER"

unfoldable pub compute_message_hash : Platform → P2pMessage → Text
compute_message_hash env msg = env.sha256_hex (
    msg.stage_str
    ++ bar
    ++ msg.sender_id
    ++ bar
    ++ msg.target_id
    ++ bar
    ++ msg.evidence_json
    ++ bar
    ++ msg.prev_message_hash
    ++ bar
    ++ to_text msg.sequence_number
    ++ bar
    ++ int_to_text msg.view)

-- The readings that `remove_if` leaves: those younger than the window.
unfoldable pub recent : ℕ → ℕ → List ℕ → List ℕ
recent now window timestamps = keep_if (λ t. ltb (elapsed_seconds now t) window) timestamps

-- The sliding window on one sender's readings.
unfoldable pub slide_window : ℕ → ℕ → ℕ → List ℕ → List ℕ × Bool
unfolding recent
slide_window now window limit timestamps =
    let kept : List ℕ = recent now window timestamps in
    if leb limit (length kept) then (kept, false) else (kept ++ now ∷ [], true)

unfoldable pub timestamps_of : Text → PbftConsensus → List ℕ
timestamps_of sender_id p = elim (lookup sender_id p.rate_limits) [ none ↦ [] | some ts ↦ ts ]

unfoldable pub check_rate_limit : ℕ → Text → PbftConsensus → PbftConsensus × Bool
check_rate_limit now sender_id p =
    let (timestamps, ok) =
      slide_window now p.rate_window_sec p.rate_max (timestamps_of sender_id p) in
    (record p { rate_limits = insert sender_id timestamps p.rate_limits }, ok)

abbrev pub is_stale : ℕ → ConsensusRound → Bool
is_stale now round = ltb round_ttl_sec (elapsed_seconds now round.last_activity)

-- One round of the sweep.
unfoldable pub sweep_round : ℕ → Text → ConsensusRound → PbftConsensus → PbftConsensus
sweep_round now key round p =
    if is_stale now round
    then record p {
      last_confirmed_hash = (if is_executed round.state then key else p.last_confirmed_hash);
      vote_registry = erase key p.vote_registry;
      rounds = erase key p.rounds;
    }
    else p

-- The loop over the rounds that the sweep found.
unfoldable pub sweep : ℕ → Dict Text ConsensusRound → PbftConsensus → PbftConsensus
sweep now [] p = p
sweep now ((key, round) ∷ rest) p = sweep now rest (sweep_round now key round p)

unfoldable pub cleanup_stale_rounds : ℕ → PbftConsensus → PbftConsensus
cleanup_stale_rounds now p = sweep now p.rounds p

-- `m_seen_messages.insert`, and the eviction of half of them, in the order of the hash table.
unfoldable pub remember : Platform → Text → List Text → List Text
remember env msg_hash seen =
    let grown : List Text = add msg_hash seen in
    if ltb max_seen_messages (length grown)
    then drop (length grown / 2) (env.bucket_order grown)
    else grown

-- The oldest entries beyond the limit go.
unfoldable pub trim_history : Dict ℕ Text → Dict ℕ Text
trim_history history =
    if ltb max_msg_history_per_sender (length history)
    then drop (length history - max_msg_history_per_sender) history
    else history

-- `detect_equivocation` up to the update of the history: another hash under the same number.
unfoldable pub note_equivocation : ℕ → P2pMessage → Text → PbftConsensus → PbftConsensus
note_equivocation now msg msg_hash p =
    elim (lookup msg.sequence_number (history_of msg.sender_id p)) [
      | none ↦ p
      | some hash ↦
          if text_eq hash msg_hash
          then p
          else record_equivocation now msg.sender_id (record p {
            equivocation_history =
                insert msg.sender_id
                  (record {
                    node_id = msg.sender_id;
                    sequence_number = msg.sequence_number;
                    view = msg.view;
                    hash1 = hash;
                    hash2 = msg_hash;
                    detected_at = now;
                  })
                  p.equivocation_history;
          })
    ]

unfoldable pub detect_equivocation : ℕ → P2pMessage → Text → PbftConsensus → PbftConsensus
detect_equivocation now msg msg_hash p = record (note_equivocation now msg msg_hash p) {
  message_history =
      insert msg.sender_id
        (trim_history (insert msg.sequence_number msg_hash (history_of msg.sender_id p)))
        p.message_history;
}
