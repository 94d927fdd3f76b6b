-- ===== src/Pbft/Verify.antt =====
-- The admission of a message in consensus/PBFT.hpp: `sign_message`, `verify_message` and the two
-- checks against the sender's history.
pub mod Outcome
pub mod Forged
use neuro_mesh.Prelude.{
  ℕ, ◌+◌, ◌-◌, ◌%◌, Bool, true, false, ◌||◌, Option, none, some, List, [], ◌∷◌, ◌++◌, Text,
  text_key, nat_key, text_eq, is_empty, if◌then◌else◌, ltb, max,
}
use neuro_mesh.Prelude.Decimal.{to_text, int_to_text}
use neuro_mesh.Prelude.Dict.{Dict, lookup, contains}
use neuro_mesh.Crypto.{PublicKey}
use neuro_mesh.Pbft.Registry.{bar, is_banned}
use neuro_mesh.Pbft.Trust.{record_failure, record_success}
use neuro_mesh.Pbft.Types.{PbftConsensus, P2pMessage, Platform, max_sequence_gap, u64_mod}

-- What a signature covers: the fields of the message but its sender.
unfoldable pub signed_blob : P2pMessage → Text
signed_blob msg =
    msg.stage_str
    ++ bar
    ++ msg.target_id
    ++ bar
    ++ msg.evidence_json
    ++ bar
    ++ to_text msg.sequence_number
    ++ bar
    ++ int_to_text msg.view
    ++ bar
    ++ msg.prev_message_hash

unfoldable pub sign_message : Platform → P2pMessage → PbftConsensus → Text
unfolding signed_blob
sign_message env msg p = elim p.private_key [
  | none ↦ []
  | some key ↦ env.sign_payload key (signed_blob msg)
]

-- The history of a sender; no entry and an entry with no message are told apart by neither check.
unfoldable pub history_of : Text → PbftConsensus → Dict ℕ Text
history_of sender_id p = elim (lookup sender_id p.message_history) [ none ↦ [] | some h ↦ h ]

-- The hash that a message must chain from, against the messages before it.
unfoldable pub chains_from : Text → P2pMessage → Dict ℕ Text → Bool
chains_from genesis msg [] = true
chains_from genesis msg (entry ∷ history) =
    elim (lookup ((msg.sequence_number + u64_mod - 1) % u64_mod) (entry ∷ history)) [
      | none ↦ is_empty msg.prev_message_hash || text_eq msg.prev_message_hash genesis
      | some hash ↦ text_eq hash msg.prev_message_hash
    ]

unfoldable pub verify_message_chaining : P2pMessage → PbftConsensus → Bool
unfolding chains_from history_of
verify_message_chaining msg p = chains_from p.genesis_hash msg (history_of msg.sender_id p)

-- The loop for `max_seq`.
unfoldable pub greatest_sequence : ℕ → Dict ℕ Text → ℕ
greatest_sequence max_seq [] = max_seq
greatest_sequence max_seq ((seq, _) ∷ history) = greatest_sequence (max max_seq seq) history

-- The bound is computed in `uint64_t`.
unfoldable pub within_gap : P2pMessage → Dict ℕ Text → Bool
unfolding greatest_sequence
within_gap msg [] = true
within_gap msg (entry ∷ history) =
    if ltb ((greatest_sequence 0 (entry ∷ history) + max_sequence_gap) % u64_mod)
      msg.sequence_number
    then false
    else true

unfoldable pub verify_sequence_continuity : P2pMessage → PbftConsensus → Bool
unfolding within_gap history_of
verify_sequence_continuity msg p = within_gap msg (history_of msg.sender_id p)

-- The checks of a message from a peer with a key, in their order; each failure is recorded.
unfoldable pub verify_with_key :
    Platform → ℕ → P2pMessage → PublicKey → PbftConsensus → PbftConsensus × Bool
verify_with_key env now msg key p =
    let refused : PbftConsensus × Bool = (record_failure now msg.sender_id p, false) in
    if env.verify_signature key (signed_blob msg) msg.signature
    then if verify_message_chaining msg p
      then if verify_sequence_continuity msg p
        then (record_success msg.sender_id p, true)
        else refused
      else refused
    else refused

unfoldable pub verify_message : Platform → ℕ → P2pMessage → PbftConsensus → PbftConsensus × Bool
verify_message env now msg p =
    if contains msg.sender_id p.banned_peers
    then (p, false)
    else elim (lookup msg.sender_id p.peer_public_keys) [
      | none ↦ (p, false)
      | some key ↦ verify_with_key env now msg key p
    ]
