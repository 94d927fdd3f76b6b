-- ===== src/Pbft/Vote/View.antt =====
-- The view of a vote in `advance_state` of consensus/PBFT.hpp.
use neuro_mesh.Prelude.{
  ℕ, ◌≡◌, ◌≢◌, refl, false, Text, text_key, text_eq_refl, arith, Bool-cases, inl, inr, List, ◌∙◌,
}
use neuro_mesh.Prelude.Dict.{contains, add}
use neuro_mesh.Prelude.Int.{eq_ℤ, eq_ℤ_iff}
use neuro_mesh.Pbft.Registry.{round_of}
use neuro_mesh.Pbft.Types.{PbftConsensus, PbftStage, P2pMessage, ConsensusRound}
use neuro_mesh.Pbft.Vote.Moves.{voters_of-set_voters}
use neuro_mesh.Pbft.Vote.Safety.{voters_of-set_round, round_of-set_voters}
use neuro_mesh.Pbft.Vote.{cast_vote, advance_round, opened, voters_of, set_voters}

opened-view :
    (now : ℕ) (msg : P2pMessage) (hash key : Text) (round : ConsensusRound)
    → round.state ≢ PbftStage.idle
    → (opened now msg hash key round).view ≡ round.view
unfolding opened
opened-view now msg hash key round h = ground arith

module _ (now : ℕ) (msg : P2pMessage) (hash key : Text) (p : PbftConsensus) where
  -- A vote for a round under way with another view, by a sender that has not voted at this stage,
  -- moves nothing, but the sender counts among the voters of the stage from then on.
  pub cast_vote-other_view :
      contains msg.sender_id (voters_of key msg.stage_str p) ≡ false
      → (round_of key p).state ≢ PbftStage.idle
      → (round_of key p).view ≢ msg.view
      → let (q, stage) = cast_vote now msg hash key p in
        (stage ≡ PbftStage.idle)
        × (voters_of key msg.stage_str q ≡ add msg.sender_id (voters_of key msg.stage_str p))
  unfolding cast_vote advance_round
  cast_vote-other_view fresh busy other =
      let voters : List Text = voters_of key msg.stage_str p in
      let voted : PbftConsensus = set_voters key msg.stage_str (add msg.sender_id voters) p in
      let same = round_of-set_voters key key msg.stage_str (add msg.sender_id voters) p in
      let round : ConsensusRound = opened now msg hash key (round_of key voted) in
      let view = opened-view now msg hash key (round_of key voted) (λ e. busy (ground arith)) in
      elim (Bool-cases (eq_ℤ round.view msg.view)) [
        | inl e ↦ absurd (other (ground (arith, eq_ℤ_iff round.view msg.view)))
        | inr e ↦
            rw (fresh, e)
              (
                refl,
                voters_of-set_round key round voted key msg.stage_str
                    ∙ voters_of-set_voters key msg.stage_str key msg.stage_str
                        (add msg.sender_id voters) p
                    ∙ ground (arith, text_eq_refl key, text_eq_refl msg.stage_str),
              )
      ]
