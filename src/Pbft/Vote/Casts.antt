-- ===== src/Pbft/Vote/Casts.antt =====
-- The guards of `advance_state` of consensus/PBFT.hpp, up to the vote.
use neuro_mesh.Prelude.{
  ℕ, ◌≡◌, ◌≢◌, ◌⊎◌, inl, inr, false, ◌∙◌, none, [], ◌∷◌, Text, text_key, arith, Bool-cases,
  Option-cases, ap, subst,
}
use neuro_mesh.Prelude.Dict.{Dict, lookup, contains}
use neuro_mesh.Pbft.Advance.{
  compute_message_hash, check_rate_limit, cleanup_stale_rounds, detect_equivocation,
  note_equivocation, remember, sweep, sweep_round,
}
use neuro_mesh.Pbft.Registry.{round_key_of}
use neuro_mesh.Pbft.Trust.{record_failure, record_equivocation}
use neuro_mesh.Pbft.Types.{PbftConsensus, PbftStage, P2pMessage, Platform, ConsensusRound}
use neuro_mesh.Pbft.Vote.{advance_state, admit_message, count_message, cast_vote}

-- The fields that the guards leave as they are.
pub record Alike (p q : PbftConsensus) : Type 0 where
  pub rounds : q.rounds ≡ p.rounds
  pub vote_registry : q.vote_registry ≡ p.vote_registry
  pub total_nodes : q.total_nodes ≡ p.total_nodes
  pub peer_public_keys : q.peer_public_keys ≡ p.peer_public_keys
  pub banned_peers : q.banned_peers ≡ p.banned_peers
  pub registered_peers : q.registered_peers ≡ p.registered_peers

Alike-trans : {p q r : PbftConsensus} → Alike p q → Alike q r → Alike p r
Alike-trans a b = record {
  rounds = b.rounds ∙ a.rounds;
  vote_registry = b.vote_registry ∙ a.vote_registry;
  total_nodes = b.total_nodes ∙ a.total_nodes;
  peer_public_keys = b.peer_public_keys ∙ a.peer_public_keys;
  banned_peers = b.banned_peers ∙ a.banned_peers;
  registered_peers = b.registered_peers ∙ a.registered_peers;
}

note_equivocation-Alike :
    (now : ℕ) (msg : P2pMessage) (hash : Text) (p : PbftConsensus)
    → Alike p (note_equivocation now msg hash p)
unfolding note_equivocation record_equivocation
note_equivocation-Alike now msg hash p = ground arith

pub detect_equivocation-Alike :
    (now : ℕ) (msg : P2pMessage) (hash : Text) (p : PbftConsensus)
    → Alike p (detect_equivocation now msg hash p)
unfolding detect_equivocation
detect_equivocation-Alike now msg hash p =
    let a = note_equivocation-Alike now msg hash p in
    record {
      rounds = a.rounds;
      vote_registry = a.vote_registry;
      total_nodes = a.total_nodes;
      peer_public_keys = a.peer_public_keys;
      banned_peers = a.banned_peers;
      registered_peers = a.registered_peers;
    }

pub check_rate_limit-Alike :
    (now : ℕ) (sender : Text) (p : PbftConsensus) → Alike p (check_rate_limit now sender p).0
unfolding check_rate_limit
check_rate_limit-Alike now sender p = ground arith

-- What the message has passed when it is cast at `s`.
pub record Cast (env : Platform) (now : ℕ) (msg : P2pMessage) (p s : PbftConsensus) : Type 0 where
  pub not_banned : contains msg.sender_id p.banned_peers ≡ false
  pub known : lookup msg.sender_id p.peer_public_keys ≢ none
  pub unseen : contains (compute_message_hash env msg) p.seen_messages ≡ false
  pub alike : Alike (cleanup_stale_rounds now p) s
  pub result :
      advance_state env now msg p
      ≡ cast_vote now msg
          (compute_message_hash env msg)
          (round_key_of env msg.evidence_json msg.target_id)
          s

module _ (env : Platform) (now : ℕ) (msg : P2pMessage) where
  abbrev pub msg_hash : Text
  msg_hash = compute_message_hash env msg

  abbrev pub round_key : Text
  round_key = round_key_of env msg.evidence_json msg.target_id

  abbrev pub remembered : PbftConsensus → PbftConsensus
  remembered p =
      detect_equivocation now msg msg_hash
        (record p { seen_messages = remember env msg_hash p.seen_messages })

  pub count_message_cases :
      (p : PbftConsensus)
      → (count_message env now msg p ≡ (p, PbftStage.idle))
        ⊎ ((contains msg_hash p.seen_messages ≡ false)
            × (count_message env now msg p ≡ cast_vote now msg msg_hash round_key (remembered p)))
  unfolding count_message
  count_message_cases p = elim (Bool-cases (contains msg_hash p.seen_messages)) [
    | inl seen ↦ inl (rw seen)
    | inr unseen ↦ inr (unseen, rw unseen)
  ]

  -- The state in which `count_message` runs.
  abbrev pub limited : PbftConsensus → PbftConsensus
  limited p = (check_rate_limit now msg.sender_id (cleanup_stale_rounds now p)).0

  pub admit_message_cases :
      (p : PbftConsensus)
      → (admit_message env now msg p
          ≡ (record_failure now msg.sender_id (limited p), PbftStage.idle))
        ⊎ (admit_message env now msg p ≡ count_message env now msg (limited p))
  unfolding admit_message
  admit_message_cases p =
      elim (Bool-cases (check_rate_limit now msg.sender_id (cleanup_stale_rounds now p)).1) [
        | inl ok ↦ inr (rw ok)
        | inr refused ↦ inl (rw refused)
      ]

  pub advance_state_cases :
      (p : PbftConsensus)
      → (advance_state env now msg p ≡ (p, PbftStage.idle))
        ⊎ ((contains msg.sender_id p.banned_peers ≡ false)
            × (lookup msg.sender_id p.peer_public_keys ≢ none)
            × (advance_state env now msg p ≡ admit_message env now msg p))
  unfolding advance_state
  advance_state_cases p = elim (Bool-cases (contains msg.sender_id p.banned_peers)) [
    | inl banned ↦ inl (rw banned)
    | inr free ↦ elim (Option-cases (lookup msg.sender_id p.peer_public_keys)) [
      | inl unknown ↦ inl (rw (free, unknown))
      | inr (key, known) ↦ inr (free, λ e. cc, rw (free, known))
    ]
  ]

-- The sweep touches the rounds, their votes and the last confirmed hash, and nothing else.
pub record Swept (p q : PbftConsensus) : Type 0 where
  pub total_nodes : q.total_nodes ≡ p.total_nodes
  pub peer_public_keys : q.peer_public_keys ≡ p.peer_public_keys
  pub banned_peers : q.banned_peers ≡ p.banned_peers
  pub registered_peers : q.registered_peers ≡ p.registered_peers
  pub seen_messages : q.seen_messages ≡ p.seen_messages
  pub rate_limits : q.rate_limits ≡ p.rate_limits
  pub node_trust : q.node_trust ≡ p.node_trust

sweep_round-Swept :
    (now : ℕ) (key : Text) (round : ConsensusRound) (p q : PbftConsensus)
    → Swept p q
    → Swept p (sweep_round now key round q)
unfolding sweep_round
sweep_round-Swept now key round p q s = ground arith

sweep-Swept :
    (now : ℕ) (rounds : Dict Text ConsensusRound) (p q : PbftConsensus)
    → Swept p q
    → Swept p (sweep now rounds q)
unfolding sweep
sweep-Swept now [] p q s = s
sweep-Swept now ((key, round) ∷ rest) p q s =
    sweep-Swept now rest p (sweep_round now key round q) (sweep_round-Swept now key round p q s)

pub cleanup_stale_rounds-Swept :
    (now : ℕ) (p : PbftConsensus) → Swept p (cleanup_stale_rounds now p)
unfolding cleanup_stale_rounds
cleanup_stale_rounds-Swept now p = sweep-Swept now p.rounds p p (ground arith)

pub limited-seen_messages :
    (env : Platform) (now : ℕ) (msg : P2pMessage) (p : PbftConsensus)
    → (limited env now msg p).seen_messages ≡ p.seen_messages
unfolding check_rate_limit
limited-seen_messages env now msg p = (cleanup_stale_rounds-Swept now p).seen_messages

pub remembered-Alike :
    (env : Platform) (now : ℕ) (msg : P2pMessage) (p : PbftConsensus)
    → Alike p (remembered env now msg p)
remembered-Alike env now msg p =
    Alike-trans (ground arith) (detect_equivocation-Alike now msg (msg_hash env now msg) (marked p))
  where
    marked : PbftConsensus → PbftConsensus
    marked q = record q { seen_messages = remember env (msg_hash env now msg) q.seen_messages }

-- A message that moves its round has passed every guard.
pub advance_state-Cast :
    (env : Platform) (now : ℕ) (msg : P2pMessage) (p : PbftConsensus)
    → (advance_state env now msg p).1 ≢ PbftStage.idle
    → (s : PbftConsensus) × Cast env now msg p s
advance_state-Cast env now msg p h = elim (advance_state_cases env now msg p) [
  | inl ignored ↦ absurd (h (ap (λ r. r.1) ignored))
  | inr (free, known, admitted) ↦ elim (admit_message_cases env now msg p) [
    | inl refused ↦ absurd (h (ap (λ r. r.1) (admitted ∙ refused)))
    | inr counted ↦ elim (count_message_cases env now msg (limited env now msg p)) [
      | inl seen ↦ absurd (h (ap (λ r. r.1) (admitted ∙ counted ∙ seen)))
      | inr (unseen, cast) ↦ (
        remembered env now msg (limited env now msg p),
        record {
          not_banned = free;
          known = known;
          unseen =
              subst (λ seen. contains (compute_message_hash env msg) seen ≡ false)
                (limited-seen_messages env now msg p) unseen;
          alike =
              Alike-trans (check_rate_limit-Alike now msg.sender_id (cleanup_stale_rounds now p))
                (remembered-Alike env now msg (limited env now msg p));
          result = admitted ∙ counted ∙ cast;
        },
      )
    ]
  ]
]
