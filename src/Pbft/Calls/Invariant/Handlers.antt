-- ===== src/Pbft/Calls/Invariant/Handlers.antt =====
-- The message handlers of consensus/PBFT.hpp, part by part, and the well-formedness of the state.
use neuro_mesh.Prelude.{
  ℕ, ◌-◌, ◌≤◌, ◌≡◌, List, [], ◌∷◌, Text, text_key, nat_key, arith, Bool-cases, Option-cases, inl,
  inr, length, length-drop, length-keep_if-le, length-append,
}
use neuro_mesh.Prelude.Dict.{
  Dict, Distinct, lookup, insert, insert-AllValues, erase-AllValues, lookup-AllValues, add-Distinct,
  remove-Distinct,
}
use neuro_mesh.Pbft.Advance.{
  check_rate_limit, slide_window, recent, timestamps_of, cleanup_stale_rounds, sweep, sweep_round,
  is_stale, note_equivocation, detect_equivocation, trim_history,
}
use neuro_mesh.Pbft.Calls.Rules.{KeptByAdvance}
use neuro_mesh.Pbft.Trust.{record_equivocation}
use neuro_mesh.Pbft.Types.{
  PbftConsensus, ConsensusRound, P2pMessage, Platform, max_msg_history_per_sender,
}
use neuro_mesh.Pbft.Verify.{history_of}
use neuro_mesh.Pbft.Vote.Casts.{remembered}
use neuro_mesh.Pbft.Vote.{set_voters, voters_of, voters_in, stages_of}
use neuro_mesh.Pbft.Calls.Invariant.{IsValid, DistinctVoters, record_failure-IsValid}

-- One round of the sweep only takes away votes.
sweep_round-voters :
    (now : ℕ) (key : Text) (round : ConsensusRound) (p : PbftConsensus)
    → IsValid p
    → IsValid (sweep_round now key round p)
unfolding sweep_round
sweep_round-voters now key round p v = elim (Bool-cases (is_stale now round)) [
  | inl stale ↦ rw stale (record {
    voters = erase-AllValues _ key p.vote_registry v.voters;
    rates = v.rates;
    histories = v.histories;
    banned = v.banned;
    registered = v.registered;
  })
  | inr young ↦ rw young v
]

sweep-IsValid :
    (now : ℕ) (rounds : Dict Text ConsensusRound) (p : PbftConsensus)
    → IsValid p
    → IsValid (sweep now rounds p)
unfolding sweep
sweep-IsValid now [] p v = v
sweep-IsValid now ((key, round) ∷ rest) p v =
    sweep-IsValid now rest (sweep_round now key round p) (sweep_round-voters now key round p v)

-- A window never holds more than the limit.
slide_window-le :
    (now window limit : ℕ) (timestamps : List ℕ)
    → length timestamps ≤ limit
    → length (slide_window now window limit timestamps).0 ≤ limit
unfolding slide_window
slide_window-le now window limit timestamps h =
    let kept : List ℕ = recent now window timestamps in
    ground (arith, length-append kept (now ∷ []), recent-le)
  where
    recent-le : length (recent now window timestamps) ≤ length timestamps
    recent-le = unfold recent in length-keep_if-le _ timestamps

timestamps_of-le :
    (sender : Text) (p : PbftConsensus) → IsValid p → length (timestamps_of sender p) ≤ p.rate_max
unfolding timestamps_of
timestamps_of-le sender p v = elim (Option-cases (lookup sender p.rate_limits)) [
  | inl e ↦ rw (e, timestamps_of) (omega arith)
  | inr (ts, e) ↦ rw (e, timestamps_of) (lookup-AllValues _ sender ts p.rate_limits v.rates e)
]

check_rate_limit-IsValid :
    (now : ℕ) (sender : Text) (p : PbftConsensus)
    → IsValid p
    → IsValid (check_rate_limit now sender p).0
unfolding check_rate_limit
check_rate_limit-IsValid now sender p v = record {
  voters = v.voters;
  rates =
      insert-AllValues _ sender _ p.rate_limits
        (slide_window-le now p.rate_window_sec p.rate_max _ (timestamps_of-le sender p v)) v.rates;
  histories = v.histories;
  banned = v.banned;
  registered = v.registered;
}

history_of-le :
    (sender : Text) (p : PbftConsensus)
    → IsValid p
    → length (history_of sender p) ≤ max_msg_history_per_sender
unfolding history_of
history_of-le sender p v = elim (Option-cases (lookup sender p.message_history)) [
  | inl e ↦ rw (e, history_of) (omega arith)
  | inr (h, e) ↦ rw (e, history_of) (lookup-AllValues _ sender h p.message_history v.histories e)
]

-- Whatever the history held, no more than the bound is left.
trim_history-le :
    (history : Dict ℕ Text) → length (trim_history history) ≤ max_msg_history_per_sender
unfolding trim_history
trim_history-le history =
    ground (arith, length-drop (length history - max_msg_history_per_sender) history)

-- The note of an equivocation leaves all that the invariant reads.
pub record SameBooks (p q : PbftConsensus) : Type 0 where
  pub vote_registry : q.vote_registry ≡ p.vote_registry
  pub rate_limits : q.rate_limits ≡ p.rate_limits
  pub rate_max : q.rate_max ≡ p.rate_max
  pub message_history : q.message_history ≡ p.message_history
  pub banned_peers : q.banned_peers ≡ p.banned_peers
  pub registered_peers : q.registered_peers ≡ p.registered_peers

pub SameBooks-IsValid : {p q : PbftConsensus} → SameBooks p q → IsValid p → IsValid q
SameBooks-IsValid s v = record {
  voters = rw s.vote_registry v.voters;
  rates = rw (s.rate_max, s.rate_limits) v.rates;
  histories = rw s.message_history v.histories;
  banned = rw s.banned_peers v.banned;
  registered = rw s.registered_peers v.registered;
}

note_equivocation-SameBooks :
    (now : ℕ) (msg : P2pMessage) (hash : Text) (p : PbftConsensus)
    → SameBooks p (note_equivocation now msg hash p)
unfolding note_equivocation record_equivocation
note_equivocation-SameBooks now msg hash p = ground arith

detect_equivocation-IsValid :
    (now : ℕ) (msg : P2pMessage) (hash : Text) (p : PbftConsensus)
    → IsValid p
    → IsValid (detect_equivocation now msg hash p)
unfolding detect_equivocation
detect_equivocation-IsValid now msg hash p v =
    let noted = SameBooks-IsValid (note_equivocation-SameBooks now msg hash p) v in
    record {
      voters = noted.voters;
      rates = noted.rates;
      histories =
          insert-AllValues _ msg.sender_id _ p.message_history
            (trim_history-le (insert msg.sequence_number hash (history_of msg.sender_id p)))
            v.histories;
      banned = noted.banned;
      registered = noted.registered;
    }

remembered-IsValid :
    (env : Platform) (now : ℕ) (msg : P2pMessage) (p : PbftConsensus)
    → IsValid p
    → IsValid (remembered env now msg p)
remembered-IsValid env now msg p v =
    detect_equivocation-IsValid now msg _ _ (SameBooks-IsValid (ground arith) v)

stages_of-DistinctVoters :
    (key : Text) (p : PbftConsensus) → IsValid p → DistinctVoters (stages_of key p)
unfolding stages_of
stages_of-DistinctVoters key p v = elim (Option-cases (lookup key p.vote_registry)) [
  | inl e ↦ rw (e, stages_of) tt
  | inr (stages, e) ↦ rw (e, stages_of) (lookup-AllValues _ key stages p.vote_registry v.voters e)
]

-- The voters of a stage are distinct, so their number counts senders.
pub voters_of-Distinct :
    (key stage : Text) (p : PbftConsensus) → IsValid p → Distinct (voters_of key stage p)
unfolding voters_of voters_in
voters_of-Distinct key stage p v = elim (Option-cases (lookup stage (stages_of key p))) [
  | inl e ↦ rw (e, voters_of, voters_in) tt
  | inr (voters, e) ↦
      rw (e, voters_of, voters_in)
        (lookup-AllValues _ stage voters (stages_of key p) (stages_of-DistinctVoters key p v) e)
]

set_voters-IsValid :
    (key stage : Text) (voters : List Text) (p : PbftConsensus)
    → Distinct voters
    → IsValid p
    → IsValid (set_voters key stage voters p)
unfolding set_voters
set_voters-IsValid key stage voters p d v = record {
  voters =
      insert-AllValues _ key _ p.vote_registry
        (insert-AllValues _ stage voters (stages_of key p) d (stages_of-DistinctVoters key p v))
        v.voters;
  rates = v.rates;
  histories = v.histories;
  banned = v.banned;
  registered = v.registered;
}

pub advance_parts :
    (env : Platform) (now : ℕ) (msg : P2pMessage) → KeptByAdvance IsValid env now msg
advance_parts env now msg = record {
  swept = λ p v. unfold cleanup_stale_rounds in sweep-IsValid now p.rounds p v;
  rated = λ p v. check_rate_limit-IsValid now msg.sender_id p v;
  failed = λ p v. record_failure-IsValid now msg.sender_id p v;
  noted = λ p v. remembered-IsValid env now msg p v;
  voted = record {
    added = λ p v.
        set_voters-IsValid _ _ _ p (add-Distinct msg.sender_id _ (voters_of-Distinct _ _ p v)) v;
    removed = λ p v.
        set_voters-IsValid _ _ _ p (remove-Distinct msg.sender_id _ (voters_of-Distinct _ _ p v)) v;
    round_set = λ round p v. SameBooks-IsValid (ground arith) v;
  };
}
