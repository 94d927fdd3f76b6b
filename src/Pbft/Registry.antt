-- ===== src/Pbft/Registry.antt =====
-- The peer registry, the ban list and the read access of consensus/PBFT.hpp.
pub mod Prune
use neuro_mesh.Prelude.{
  ℕ, suc, ◌+◌, ◌≤◌, ◌<◌, ◌≡◌, Bool, true, false, not, ◌&&◌, ◌||◌, Option, none, some, List, [], ◌∷◌,
  ◌++◌, map, Text, codes, text_key, nat_key, text_eq, is_empty, if◌then◌else◌, max, ltb, get_last?,
}
use neuro_mesh.Prelude.Decimal.{to_text, int_to_text}
use neuro_mesh.Prelude.Dict.{Dict, lookup, insert, erase, contains, add, remove}
use neuro_mesh.Prelude.Int.{ℤ, pos, max_one, suc_ℤ, pred_ℤ}
use neuro_mesh.Crypto.{PublicKey}
use neuro_mesh.Pbft.Settings.{
  int_setting, as_window, as_size, default_rate_window_sec, default_rate_max,
}
use neuro_mesh.Pbft.Types.{
  PbftConsensus, PbftStage, P2pMessage, Platform, ConsensusRound, EquivocationEvidence, new_round,
  new_trust, elapsed_seconds, view_change_timeout_sec,
}

-- The constructor. The last two arguments are the environment variables NEURO_PBFT_RATE_WINDOW and
-- NEURO_PBFT_RATE_MAX; the limit is kept as the `size_t` that the code compares with.
unfoldable pub init : Platform → ℤ → Option Text → Option Text → PbftConsensus
init env total_nodes window_env max_env = record {
  total_nodes = total_nodes;
  current_view = 0;
  rate_window_sec = as_window (int_setting default_rate_window_sec window_env);
  rate_max = as_size (int_setting default_rate_max max_env);
  genesis_hash = env.sha256_hex (codes "GENESIS");
  last_confirmed_hash = [];
  my_node_id = [];
  private_key = none;
  vote_registry = [];
  peer_public_keys = [];
  rounds = [];
  node_trust = [];
  message_history = [];
  equivocation_history = [];
  rate_limits = [];
  seen_messages = [];
  registered_peers = [];
  banned_peers = [];
  recent_bans = [];
}

unfoldable pub register_peer_key : Platform → Text → Text → PbftConsensus → PbftConsensus
register_peer_key env node_id pem_key p = record p {
  peer_public_keys = insert node_id (env.get_pubkey_from_pem pem_key) p.peer_public_keys;
  node_trust = insert node_id new_trust p.node_trust;
  registered_peers = add node_id p.registered_peers;
}

unfoldable pub has_peer : Text → PbftConsensus → Bool
has_peer node_id p = contains node_id p.registered_peers

unfoldable pub set_my_identity : Text → PbftConsensus → PbftConsensus
set_my_identity node_id p = record p { my_node_id = node_id }

unfoldable pub set_private_key : Option Text → PbftConsensus → PbftConsensus
set_private_key key p = record p { private_key = key }

unfoldable pub peer_count : PbftConsensus → ℤ
peer_count p = p.total_nodes

unfoldable pub set_peer_count : ℤ → PbftConsensus → PbftConsensus
set_peer_count n p = record p { total_nodes = pos (max_one n) }

unfoldable pub increment_peers : PbftConsensus → PbftConsensus
increment_peers p = record p { total_nodes = suc_ℤ p.total_nodes }

unfoldable pub decrement_peers : PbftConsensus → PbftConsensus
decrement_peers p = record p { total_nodes = pos (max_one (pred_ℤ p.total_nodes)) }

-- The inner loop of `prune_peer_locked`, over the stages of one round.
unfoldable pub forget_in_stages : Text → Dict Text (List Text) → Dict Text (List Text)
forget_in_stages node_id [] = []
forget_in_stages node_id ((stage, voters) ∷ stages) =
    (stage, remove node_id voters) ∷ forget_in_stages node_id stages

-- The outer loop, over the rounds.
unfoldable pub forget_votes :
    Text → Dict Text (Dict Text (List Text)) → Dict Text (Dict Text (List Text))
forget_votes node_id [] = []
forget_votes node_id ((evidence, stages) ∷ registry) =
    (evidence, forget_in_stages node_id stages) ∷ forget_votes node_id registry

-- `prune_peer` and `prune_peer_locked`.
unfoldable pub prune_peer : Text → PbftConsensus → PbftConsensus
prune_peer node_id p = record p {
  peer_public_keys = erase node_id p.peer_public_keys;
  node_trust = erase node_id p.node_trust;
  message_history = erase node_id p.message_history;
  registered_peers = remove node_id p.registered_peers;
  vote_registry = forget_votes node_id p.vote_registry;
  total_nodes = pos (max_one (pred_ℤ p.total_nodes));
}

-- The bans come out in the order of the hash table.
unfoldable pub drain_recent_bans : Platform → PbftConsensus → PbftConsensus × List Text
drain_recent_bans env p = (record p { recent_bans = [] }, env.bucket_order p.recent_bans)

unfoldable pub is_banned : Text → PbftConsensus → Bool
is_banned node_id p = contains node_id p.banned_peers

-- `ban_peer_local` and `ban_peer_locked`; the reason is only logged.
unfoldable pub ban_peer_local : Text → PbftConsensus → PbftConsensus
ban_peer_local node_id p = record p { banned_peers = add node_id p.banned_peers }

unfoldable pub propose_ban : Text → PbftConsensus → PbftConsensus × Bool
propose_ban target_id p =
    if is_empty target_id || text_eq target_id p.my_node_id
    then (p, false)
    else if is_banned target_id p
    then (p, false)
    else (ban_peer_local target_id p, true)

unfoldable pub try_increment_peers : Text → PbftConsensus → PbftConsensus × Bool
try_increment_peers node_id p = if contains node_id p.registered_peers then (p, false) else (
  record p { registered_peers = add node_id p.registered_peers; total_nodes = suc_ℤ p.total_nodes },
  true,
)

-- In hundredths; 0 for an unknown peer.
unfoldable pub get_node_trust : Text → PbftConsensus → ℕ
get_node_trust node_id p = elim (lookup node_id p.node_trust) [
  | none ↦ 0
  | some trust ↦ trust.trust_score
]

unfoldable pub get_equivocation_evidence : PbftConsensus → List EquivocationEvidence
get_equivocation_evidence p = map (λ entry. entry.1) p.equivocation_history

abbrev pub bar : Text
bar = codes "|"

unfoldable pub get_chain_state_hash : Platform → PbftConsensus → Text
get_chain_state_hash env p =
    if is_empty p.last_confirmed_hash
    then p.genesis_hash
    else env.sha256_hex
        (p.last_confirmed_hash ++ bar ++ int_to_text p.total_nodes ++ bar ++ to_text p.current_view)

-- The hash of the entry with the greatest sequence number.
unfoldable pub latest_hash : Dict ℕ Text → Option Text
latest_hash history = elim (get_last? history) [ none ↦ none | some entry ↦ some entry.1 ]

unfoldable pub get_last_sent_hash : Text → PbftConsensus → Text
unfolding latest_hash
get_last_sent_hash sender_id p = elim (lookup sender_id p.message_history) [
  | none ↦ p.genesis_hash
  | some history ↦ elim (latest_hash history) [ none ↦ p.genesis_hash | some hash ↦ hash ]
]

unfoldable pub advance_view : PbftConsensus → PbftConsensus
advance_view p = record p { current_view = suc p.current_view }

-- `m_rounds[round_key]`
unfoldable pub round_of : Text → PbftConsensus → ConsensusRound
round_of round_key p = elim (lookup round_key p.rounds) [ none ↦ new_round | some round ↦ round ]

unfoldable pub set_round_commit_sig : Text → Text → PbftConsensus → PbftConsensus
unfolding round_of
set_round_commit_sig round_key sig p = record p {
  rounds = insert round_key (record (round_of round_key p) { commit_signature = sig }) p.rounds;
}

unfoldable pub get_round_commit_sig : Text → PbftConsensus → Text
get_round_commit_sig round_key p = elim (lookup round_key p.rounds) [
  | none ↦ []
  | some round ↦ round.commit_signature
]

-- The key of the round for a piece of evidence and its target; the text itself if hashing fails.
unfoldable pub round_key_of : Platform → Text → Text → Text
round_key_of env evidence_json target_id =
    let text : Text = evidence_json ++ bar ++ target_id in
    let hash : Text = env.sha256_hex text in if is_empty hash then text else hash

abbrev pub is_executed : PbftStage → Bool
is_executed PbftStage.executed = true
is_executed _ = false

unfoldable pub needs_view_change : Platform → ℕ → Text → Text → PbftConsensus → Bool
unfolding round_key_of
needs_view_change env now evidence_json target_id p =
    elim (lookup (round_key_of env evidence_json target_id) p.rounds) [
      | none ↦ false
      | some round ↦
          ltb view_change_timeout_sec (elapsed_seconds now round.last_activity)
          && not (is_executed round.state)
    ]
