-- ===== src/Pbft/Calls/Invariant.antt =====
-- The well-formedness of the state of consensus/PBFT.hpp, through every history of calls.
pub mod Handlers
pub mod Histories
use neuro_mesh.Prelude.{
  ℕ, ◌+◌, ◌-◌, ◌≤◌, ◌<◌, ◌≡◌, refl, Bool, true, false, not, ◌||◌, ◌&&◌, Option, none, some, List,
  [], ◌∷◌, Text, text_key, nat_key, text_eq, text_eq_iff, if◌then◌else◌, keep_if, arith, Bool-cases,
  Option-cases, inl, inr, length, length-drop, length-keep_if-le, length-append, drop, leb, ltb,
  All,
}
use neuro_mesh.Prelude.Dict.{
  Dict, AllValues, Distinct, lookup, insert, erase, contains, add, remove, insert-AllValues,
  erase-AllValues, lookup-AllValues, add-Distinct, remove-Distinct,
}
use neuro_mesh.Prelude.Int.{ℤ}
use neuro_mesh.Pbft.Advance.{
  check_rate_limit, slide_window, recent, timestamps_of, cleanup_stale_rounds, sweep, sweep_round,
  is_stale, note_equivocation, detect_equivocation, trim_history, remember,
}
use neuro_mesh.Pbft.Calls.Rules.{advance_state-kept, verify_message-kept, KeptByAdvance, KeptByVote}
use neuro_mesh.Pbft.Calls.{Call, perform, run}
use neuro_mesh.Pbft.Registry.{
  init, register_peer_key, set_my_identity, set_private_key, set_peer_count, increment_peers,
  decrement_peers, prune_peer, forget_votes, forget_in_stages, drain_recent_bans, ban_peer_local,
  propose_ban, is_banned, try_increment_peers, advance_view, set_round_commit_sig,
}
use neuro_mesh.Pbft.Trust.Failures.{record_failure_cases}
use neuro_mesh.Pbft.Trust.{
  record_failure, auto_ban, count_failure, record_success, record_equivocation,
}
use neuro_mesh.Pbft.Types.{
  PbftConsensus, ConsensusRound, NodeTrustScore, PbftStage, P2pMessage, Platform,
  max_msg_history_per_sender,
}
use neuro_mesh.Pbft.Verify.{verify_message, history_of}
use neuro_mesh.Pbft.Vote.Casts.{remembered}
use neuro_mesh.Pbft.Vote.{advance_state, set_voters, voters_of, voters_in, stages_of}

abbrev pub DistinctVoters : Dict Text (List Text) → Type 0
DistinctVoters stages = AllValues (λ stage voters. Distinct voters) stages

-- Nobody votes twice at a stage, no sender has more readings in its window than the limit, and no
-- history is longer than its bound; the sets have no repetition.
pub record IsValid (p : PbftConsensus) : Type 0 where
  pub voters : AllValues (λ key stages. DistinctVoters stages) p.vote_registry
  pub rates : AllValues (λ sender timestamps. length timestamps ≤ p.rate_max) p.rate_limits
  pub histories :
      AllValues (λ sender history. length history ≤ max_msg_history_per_sender) p.message_history
  pub banned : Distinct p.banned_peers
  pub registered : Distinct p.registered_peers

forget_in_stages-DistinctVoters :
    (x : Text) (stages : Dict Text (List Text))
    → DistinctVoters stages
    → DistinctVoters (forget_in_stages x stages)
unfolding forget_in_stages
forget_in_stages-DistinctVoters x [] d = tt
forget_in_stages-DistinctVoters x ((stage, voters) ∷ stages) d =
    (remove-Distinct x voters d.0, forget_in_stages-DistinctVoters x stages d.1)

forget_votes-valid :
    (x : Text) (registry : Dict Text (Dict Text (List Text)))
    → AllValues (λ key stages. DistinctVoters stages) registry
    → AllValues (λ key stages. DistinctVoters stages) (forget_votes x registry)
unfolding forget_votes
forget_votes-valid x [] d = tt
forget_votes-valid x ((key, stages) ∷ registry) d =
    (forget_in_stages-DistinctVoters x stages d.0, forget_votes-valid x registry d.1)

pub prune_peer-IsValid : (x : Text) (p : PbftConsensus) → IsValid p → IsValid (prune_peer x p)
unfolding prune_peer
prune_peer-IsValid x p v = record {
  voters = forget_votes-valid x p.vote_registry v.voters;
  rates = v.rates;
  histories = erase-AllValues _ x p.message_history v.histories;
  banned = v.banned;
  registered = remove-Distinct x p.registered_peers v.registered;
}

pub auto_ban-IsValid : (x : Text) (p : PbftConsensus) → IsValid p → IsValid (auto_ban x p)
unfolding auto_ban
auto_ban-IsValid x p v = prune_peer-IsValid x _ (record {
  voters = v.voters;
  rates = v.rates;
  histories = v.histories;
  banned = add-Distinct x p.banned_peers v.banned;
  registered = v.registered;
})

-- A change of the trust scores alone.
pub trust-IsValid :
    (p : PbftConsensus) (trust : Dict Text NodeTrustScore)
    → IsValid p
    → IsValid (record p { node_trust = trust })
trust-IsValid p trust v = record {
  voters = v.voters;
  rates = v.rates;
  histories = v.histories;
  banned = v.banned;
  registered = v.registered;
}

pub record_failure-IsValid :
    (now : ℕ) (x : Text) (p : PbftConsensus) → IsValid p → IsValid (record_failure now x p)
record_failure-IsValid now x p v = elim (record_failure_cases now x p) [
  | inl (_, e) ↦ rw e (counted v)
  | inr (_, e) ↦ rw e (auto_ban-IsValid x _ (counted v))
]
  where
    counted : IsValid p → IsValid (count_failure now x p)
    counted w = unfold count_failure in trust-IsValid p _ w
