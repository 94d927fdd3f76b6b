-- ===== src/Pbft/Types.antt =====
-- The data of consensus/PBFT.hpp. Times are readings of `steady_clock` in nanoseconds; the trust
-- score, a double between 0.0 and 1.0, is counted in hundredths.
use neuro_mesh.Prelude.{ℕ, ◌-◌, ◌*◌, ◌/◌, ◌+◌, ◌^◌, ◌≡◌, Option, List, [], Text, length, text_key}
use neuro_mesh.Prelude.Dict.{Dict, contains}
use neuro_mesh.Prelude.Int.{ℤ, max_one}
use neuro_mesh.Crypto.{Crypto, PublicKey}

pub data PbftStage : Type 0 where
  idle pre_prepare prepare commit executed ban_peer : PbftStage

pub record P2pMessage : Type 0 where
  pub stage_str : Text
  pub sender_id : Text
  pub target_id : Text
  pub evidence_json : Text
  pub signature : Text
  pub prev_message_hash : Text
  pub sequence_number : ℕ
  pub view : ℤ

pub record EquivocationEvidence : Type 0 where
  pub node_id : Text
  pub sequence_number : ℕ
  pub view : ℤ
  pub hash1 : Text
  pub hash2 : Text
  pub detected_at : ℕ

pub record ConsensusRound : Type 0 where
  pub state : PbftStage
  pub view : ℤ
  pub pre_prepare_hash : Text
  pub evidence_key : Text
  pub commit_signature : Text
  pub started_at : ℕ
  pub last_activity : ℕ

pub record NodeTrustScore : Type 0 where
  pub equivocation_count : ℕ
  pub consecutive_failures : ℕ
  pub successful_rounds : ℕ
  pub last_failure : ℕ
  pub trust_score : ℕ

-- The members of `PBFTConsensus`.
pub record PbftConsensus : Type 0 where
  pub total_nodes : ℤ
  pub current_view : ℕ
  pub rate_window_sec : ℕ
  pub rate_max : ℕ
  pub genesis_hash : Text
  pub last_confirmed_hash : Text
  pub my_node_id : Text
  pub private_key : Option Text
  pub vote_registry : Dict Text (Dict Text (List Text))
  pub peer_public_keys : Dict Text PublicKey
  pub rounds : Dict Text ConsensusRound
  pub node_trust : Dict Text NodeTrustScore
  pub message_history : Dict Text (Dict ℕ Text)
  pub equivocation_history : Dict Text EquivocationEvidence
  pub rate_limits : Dict Text (List ℕ)
  pub seen_messages : List Text
  pub registered_peers : List Text
  pub banned_peers : List Text
  pub recent_bans : List Text

-- What the class takes from outside: the cryptographic core, and the order in which an
-- `std::unordered_set` walks its elements, which is some rearrangement of them.
pub record Platform : Type 0 where
  pub crypto : Crypto
  pub open crypto use {sha256_hex, get_pubkey_from_pem, sign_payload, verify_signature}
  pub bucket_order : List Text → List Text
  pub bucket_order_size : (seen : List Text) → length (bucket_order seen) ≡ length seen
  pub bucket_order_members :
      (x : Text) (seen : List Text) → contains x (bucket_order seen) ≡ contains x seen

abbrev pub view_change_timeout_sec : ℕ
view_change_timeout_sec = 30

abbrev pub round_ttl_sec : ℕ
round_ttl_sec = 120

abbrev pub max_sequence_gap : ℕ
max_sequence_gap = 100

abbrev pub max_msg_history_per_sender : ℕ
max_msg_history_per_sender = 10000

abbrev pub max_seen_messages : ℕ
max_seen_messages = 100000

abbrev pub auto_prune_failures : ℕ
auto_prune_failures = 100

abbrev pub u64_mod : ℕ
u64_mod = 2 ^ 64

-- `duration_cast<seconds>(now - then).count()` for a reading that is not later than `now`.
abbrev pub elapsed_seconds : ℕ → ℕ → ℕ
elapsed_seconds now since = (now - since) / 1000000000

-- A new entry of each map, as `operator[]` makes it.
abbrev pub new_round : ConsensusRound
new_round = record {
  state = idle;
  view = ℤ.pos 0;
  pre_prepare_hash = [];
  evidence_key = [];
  commit_signature = [];
  started_at = 0;
  last_activity = 0;
}

abbrev pub new_trust : NodeTrustScore
new_trust = record {
  equivocation_count = 0;
  consecutive_failures = 0;
  successful_rounds = 0;
  last_failure = 0;
  trust_score = 100;
}

abbrev pub no_votes : Dict Text (List Text)
no_votes = []

-- `quorum_size()`: 2f + 1 with f a third of the other nodes.
unfoldable pub quorum_size : PbftConsensus → ℕ
quorum_size p = 2 * ((max_one p.total_nodes - 1) / 3) + 1
