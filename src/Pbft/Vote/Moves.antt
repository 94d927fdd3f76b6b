-- ===== src/Pbft/Vote/Moves.antt =====
-- What a vote does to its round, in `advance_state` of consensus/PBFT.hpp.
use neuro_mesh.Prelude.{
  ℕ, ◌≤◌, ◌≡◌, refl, ◌≢◌, ◌⊎◌, inl, inr, Bool, true, ◌&&◌, List, Text, text_key, text_eq,
  text_eq_iff, if◌then◌else◌, length, arith, Bool-cases, subst,
}
use neuro_mesh.Prelude.Dict.{insert, lookup-insert}
use neuro_mesh.Prelude.Int.{eq_ℤ, eq_ℤ_iff}
use neuro_mesh.Pbft.Advance.{stage_pre_prepare, stage_prepare, stage_commit, stage_ban_peer}
use neuro_mesh.Pbft.Registry.{round_of}
use neuro_mesh.Pbft.Types.{PbftConsensus, PbftStage, P2pMessage, ConsensusRound, quorum_size}
use neuro_mesh.Pbft.Vote.{
  stages_of, voters_of, voters_in, set_voters, decide_move, Verdict, opened, settle, advance_round,
  verify_quorum_intersection, set_round,
}

pub voters_of-set_voters :
    (k s k' s' : Text) (voters : List Text) (p : PbftConsensus)
    → voters_of k s (set_voters k' s' voters p)
      ≡ (if text_eq k k' && text_eq s s' then voters else voters_of k s p)
unfolding voters_of set_voters voters_in
voters_of-set_voters k s k' s' voters p = ground (
  arith,
  lookup-insert k k' (insert s' voters (stages_of k' p)) p.vote_registry,
  lookup-insert s s' voters (stages_of k' p),
  text_eq_iff k k',
)

pub round_of-set_round :
    (k k' : Text) (round : ConsensusRound) (p : PbftConsensus)
    → round_of k (set_round k' round p) ≡ (if text_eq k k' then round else round_of k p)
unfolding round_of
round_of-set_round k k' round p = ground (arith, lookup-insert k k' round p.rounds)

-- A move of a round along the chain idle, prepare, commit, executed, with the votes that it has.
abbrev pub MovesTo : Text → ℕ → ℕ → Bool → PbftStage → PbftStage → Type 0
MovesTo stage votes quorum overlap from to =
    ((from ≡ PbftStage.idle)
      × (to ≡ PbftStage.prepare)
      × ((stage ≡ stage_pre_prepare) ⊎ (stage ≡ stage_ban_peer)))
    ⊎ ((from ≡ PbftStage.prepare)
        × (to ≡ PbftStage.commit)
        × (stage ≡ stage_prepare)
        × (quorum ≤ votes))
    ⊎ ((from ≡ PbftStage.commit)
        × (to ≡ PbftStage.executed)
        × (stage ≡ stage_commit)
        × (quorum ≤ votes)
        × (overlap ≡ true))

pub decide_move-MovesTo :
    (stage : Text) (votes quorum : ℕ) (overlap : Bool) (from to : PbftStage)
    → decide_move stage votes quorum overlap from ≡ Verdict.moves to
    → MovesTo stage votes quorum overlap from to
unfolding decide_move
decide_move-MovesTo stage votes quorum overlap from to h = ground (
  arith,
  text_eq_iff stage stage_pre_prepare,
  text_eq_iff stage stage_ban_peer,
  text_eq_iff stage stage_prepare,
  text_eq_iff stage stage_commit,
)

settle-moves :
    (msg : P2pMessage) (key : Text) (round : ConsensusRound) (v : Verdict) (p : PbftConsensus)
    → let (q, stage) = settle msg key round v p in
      stage ≢ PbftStage.idle
      → (v ≡ Verdict.moves stage) × (q ≡ set_round key (record round { state = stage }) p)
unfolding settle
settle-moves msg key round Verdict.stays p h = absurd (h refl)
settle-moves msg key round (Verdict.moves stage) p h = (refl, refl)
settle-moves msg key round Verdict.parts p h = absurd (h refl)

pub opened-state :
    (now : ℕ) (msg : P2pMessage) (hash key : Text) (round : ConsensusRound)
    → (opened now msg hash key round).state ≡ round.state
unfolding opened
opened-state now msg hash key round = ground arith

-- The verdict on a round in `advance_round`, and the round that it is passed on.
abbrev verdict_on : P2pMessage → Text → PbftConsensus → ConsensusRound → Verdict
verdict_on msg key p round =
    decide_move msg.stage_str (length (voters_of key msg.stage_str p)) (quorum_size p)
      (verify_quorum_intersection key p) round.state

abbrev active_round : ℕ → P2pMessage → Text → Text → PbftConsensus → ConsensusRound
active_round now msg hash key p = record (opened now msg hash key (round_of key p)) {
  last_activity = now;
}

-- What a vote does to the rounds, once it is counted, if it moves its round to `stage`.
pub record Moved (now : ℕ) (msg : P2pMessage) (hash key : Text) (p q : PbftConsensus)
    (stage : PbftStage) : Type 0 where
  pub same_view : (opened now msg hash key (round_of key p)).view ≡ msg.view
  pub along :
      MovesTo msg.stage_str
        (length (voters_of key msg.stage_str p))
        (quorum_size p)
        (verify_quorum_intersection key p)
        (round_of key p).state
        stage
  pub result : q ≡ set_round key (record (active_round now msg hash key p) { state = stage }) p

module _ (now : ℕ) (msg : P2pMessage) (hash key : Text) (p : PbftConsensus) where
  settle-Moved :
      (opened now msg hash key (round_of key p)).view ≡ msg.view
      → let v = verdict_on msg key p (opened now msg hash key (round_of key p)) in
        let (q, stage) = settle msg key (active_round now msg hash key p) v p in
        stage ≢ PbftStage.idle → Moved now msg hash key p q stage
  settle-Moved same h =
      let round : ConsensusRound = opened now msg hash key (round_of key p) in
      let v : Verdict = verdict_on msg key p round in
      let (is_move, result) = settle-moves msg key (active_round now msg hash key p) v p h in
      let to : PbftStage = (settle msg key (active_round now msg hash key p) v p).1 in
      record {
        same_view = same;
        along =
            subst
              (λ from.
                MovesTo msg.stage_str (length (voters_of key msg.stage_str p)) (quorum_size p)
                  (verify_quorum_intersection key p) from to)
              (opened-state now msg hash key (round_of key p))
              (decide_move-MovesTo msg.stage_str _ _ _ round.state to is_move);
        result = result;
      }

  pub advance_round-Moved :
      let (q, stage) = advance_round now msg hash key p in
      stage ≢ PbftStage.idle → Moved now msg hash key p q stage
  unfolding advance_round
  advance_round-Moved h =
      let round : ConsensusRound = opened now msg hash key (round_of key p) in
      elim (Bool-cases (eq_ℤ round.view msg.view)) [
        | inl same ↦ rw same (settle-Moved ((eq_ℤ_iff round.view msg.view).0 same) (rw same at h))
        | inr other ↦ absurd (h (rw other))
      ]
