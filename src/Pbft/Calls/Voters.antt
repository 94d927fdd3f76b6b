-- ===== src/Pbft/Calls/Voters.antt =====
-- Who comes to stand among the voters of a stage, call by call of consensus/PBFT.hpp.
use neuro_mesh.Prelude.{
  ℕ, ◌≡◌, Bool, true, false, none, some, List, [], ◌∷◌, Text, text_key, text_eq, text_eq_iff, arith,
  Bool-cases, inl, inr,
}
use neuro_mesh.Prelude.Dict.{
  Dict, lookup, erase, contains, add, remove, contains-add, contains-remove, lookup-erase,
}
use neuro_mesh.Pbft.Advance.{cleanup_stale_rounds, sweep, sweep_round, is_stale}
use neuro_mesh.Pbft.Calls.Rules.{advance_state-kept, verify_message-kept, KeptByAdvance}
use neuro_mesh.Pbft.Calls.{Call, perform}
use neuro_mesh.Pbft.Registry.{
  register_peer_key, set_my_identity, set_private_key, set_peer_count, increment_peers,
  decrement_peers, drain_recent_bans, ban_peer_local, propose_ban, try_increment_peers,
  advance_view, set_round_commit_sig, round_key_of, prune_peer,
}
use neuro_mesh.Pbft.Registry.Prune.{prune_peer-others}
use neuro_mesh.Pbft.Trust.Failures.{record_failure_cases}
use neuro_mesh.Pbft.Trust.{record_failure, auto_ban, count_failure, record_success}
use neuro_mesh.Pbft.Types.{PbftConsensus, P2pMessage, Platform, ConsensusRound, no_votes}
use neuro_mesh.Pbft.Vote.Casts.{check_rate_limit-Alike, remembered-Alike}
use neuro_mesh.Pbft.Vote.Moves.{voters_of-set_voters}
use neuro_mesh.Pbft.Vote.Safety.{voters_of-Alike}
use neuro_mesh.Pbft.Vote.{advance_state, stages_of, voters_in, voters_of}

-- Whether a call is one of `advance_state`.
abbrev pub counts_vote : Call → Bool
counts_vote (Call.advance now msg) = true
counts_vote _ = false

-- `Q` holds if the sender is among the voters of the stage of the round.
module _ (key stage id : Text) (Q : Type 0) where
  abbrev pub HoldsIfVoter : PbftConsensus → Type 0
  HoldsIfVoter p = contains id (voters_of key stage p) ≡ true → Q

  -- The voters of the stage of the round in a registry.
  abbrev voters_under : Dict Text (Dict Text (List Text)) → List Text
  voters_under registry =
      voters_in stage (elim (lookup key registry) [ none ↦ no_votes | some stages ↦ stages ])

  contains-voters_under-erase :
      (k : Text) (registry : Dict Text (Dict Text (List Text)))
      → contains id (voters_under (erase k registry)) ≡ true
      → contains id (voters_under registry) ≡ true
  unfolding voters_in contains lookup
  contains-voters_under-erase k registry among = elim (Bool-cases (text_eq key k)) [
    | inl same ↦ absurd (ground (arith, (rw (lookup-erase key k registry, same) at among)))
    | inr other ↦ rw (lookup-erase key k registry, other) at among
  ]

  sweep_round-HoldsIfVoter :
      (now : ℕ) (k : Text) (round : ConsensusRound) (p : PbftConsensus)
      → HoldsIfVoter p
      → HoldsIfVoter (sweep_round now k round p)
  unfolding sweep_round voters_of stages_of
  sweep_round-HoldsIfVoter now k round p h among = elim (Bool-cases (is_stale now round)) [
    | inr young ↦ h (rw young at among)
    | inl stale ↦ h (contains-voters_under-erase k p.vote_registry (rw stale at among))
  ]

  sweep-HoldsIfVoter :
      (now : ℕ) (rounds : Dict Text ConsensusRound) (p : PbftConsensus)
      → HoldsIfVoter p
      → HoldsIfVoter (sweep now rounds p)
  unfolding sweep
  sweep-HoldsIfVoter now [] p h = h
  sweep-HoldsIfVoter now ((k, round) ∷ rest) p h =
      sweep-HoldsIfVoter now rest (sweep_round now k round p)
        (sweep_round-HoldsIfVoter now k round p h)

  prune_peer-HoldsIfVoter :
      (x : Text) (p : PbftConsensus) → HoldsIfVoter p → HoldsIfVoter (prune_peer x p)
  prune_peer-HoldsIfVoter x p h among = h (ground (arith, prune_peer-others x id key stage p))

  record_failure-HoldsIfVoter :
      (now : ℕ) (x : Text) (p : PbftConsensus)
      → HoldsIfVoter p
      → HoldsIfVoter (record_failure now x p)
  unfolding auto_ban count_failure voters_of stages_of
  record_failure-HoldsIfVoter now x p h = elim (record_failure_cases now x p) [
    | inl (_, e) ↦ rw e h
    | inr (_, e) ↦ rw e (prune_peer-HoldsIfVoter x _ h)
  ]

  advance_parts :
      (env : Platform) (now : ℕ) (msg : P2pMessage)
      → (msg.sender_id ≡ id
          → msg.stage_str ≡ stage
          → round_key_of env msg.evidence_json msg.target_id ≡ key
          → Q)
      → KeptByAdvance HoldsIfVoter env now msg
  advance_parts env now msg voted =
      let at = round_key_of env msg.evidence_json msg.target_id in
      record {
        swept = λ p h. unfold cleanup_stale_rounds in sweep-HoldsIfVoter now p.rounds p h;
        rated =
            λ p h. rw (voters_of-Alike key stage (check_rate_limit-Alike now msg.sender_id p)) h;
        failed = λ p h. record_failure-HoldsIfVoter now msg.sender_id p h;
        noted = λ p h. rw (voters_of-Alike key stage (remembered-Alike env now msg p)) h;
        voted = record {
          added = λ p h among.
              let voters : List Text = voters_of at msg.stage_str p in
              ground (
                arith,
                voters_of-set_voters key stage at msg.stage_str (add msg.sender_id voters) p,
                contains-add id msg.sender_id voters,
                text_eq_iff key at,
                text_eq_iff stage msg.stage_str,
                text_eq_iff id msg.sender_id,
              );
          removed = λ p h among.
              let voters : List Text = voters_of at msg.stage_str p in
              ground (
                arith,
                voters_of-set_voters key stage at msg.stage_str (remove msg.sender_id voters) p,
                contains-remove id msg.sender_id voters,
                text_eq_iff key at,
                text_eq_iff stage msg.stage_str,
              );
          round_set = λ round p h. unfold voters_of in h;
        };
      }

  -- A message that `advance_state` takes adds its sender to the voters of its stage and no other.
  pub advance_state-HoldsIfVoter :
      (env : Platform) (now : ℕ) (msg : P2pMessage) (p : PbftConsensus)
      → (msg.sender_id ≡ id
          → msg.stage_str ≡ stage
          → round_key_of env msg.evidence_json msg.target_id ≡ key
          → Q)
      → HoldsIfVoter p
      → HoldsIfVoter (advance_state env now msg p).0
  advance_state-HoldsIfVoter env now msg p voted h =
      advance_state-kept HoldsIfVoter (advance_parts env now msg voted) p h

  -- A call of another method adds no voter.
  pub perform-HoldsIfVoter :
      (env : Platform) (call : Call) (p : PbftConsensus)
      → counts_vote call ≡ false
      → HoldsIfVoter p
      → HoldsIfVoter (perform env call p)
  unfolding perform register_peer_key set_my_identity set_private_key set_peer_count increment_peers
      decrement_peers drain_recent_bans ban_peer_local propose_ban try_increment_peers advance_view
      set_round_commit_sig record_success voters_of stages_of
  perform-HoldsIfVoter env (Call.verify now msg) p other h =
      verify_message-kept HoldsIfVoter env now msg p
        (record_failure-HoldsIfVoter now msg.sender_id p) (λ b. b) h
  perform-HoldsIfVoter env (Call.advance now msg) p other h = absurd (ground arith)
  perform-HoldsIfVoter env (Call.prune x) p other h = prune_peer-HoldsIfVoter x p h
  perform-HoldsIfVoter env (Call.propose x) p other h = ground arith
  perform-HoldsIfVoter env (Call.try_increment x) p other h = ground arith
  perform-HoldsIfVoter env call p other h = h
