-- ===== src/Pbft/Tests/Progress.antt =====
-- Rounds of consensus/PBFT.hpp that votes take on, at concrete inputs.
use neuro_mesh.Prelude.{◌≡◌, refl, List, [], ◌∷◌, Text, codes, text_eq, text_key, arith}
use neuro_mesh.Prelude.Dict.{lookup, contains}
use neuro_mesh.Prelude.Int.{pos}
use neuro_mesh.Pbft.Advance.{stage_prepare, stage_commit}
use neuro_mesh.Pbft.Registry.{round_of}
use neuro_mesh.Pbft.Tests.{four_nodes, vote}
use neuro_mesh.Pbft.Types.{PbftConsensus, PbftStage, new_round, quorum_size}
use neuro_mesh.Pbft.Vote.{voters_of, voters_in, stages_of}
use neuro_mesh.Pbft.Vote.Progress.{cast_all}
use neuro_mesh.Pbft.Vote.Progress.Commits.{cast_all-executes}
use neuro_mesh.Pbft.Vote.Progress.Phases.{cast_all-prepares}

abbrev key : Text
key = codes "k"

-- A round of four nodes at some stage, with the voters at PREPARE.
abbrev at_stage : PbftStage → List Text → PbftConsensus
at_stage stage prepared = record four_nodes {
  total_nodes = pos 4;
  rounds = (key, record new_round { state = stage; view = pos 0 }) ∷ [];
  vote_registry = (key, (stage_prepare, prepared) ∷ []) ∷ [];
}

abbrev three_votes : List (Text × Text)
three_votes = (codes "c", codes "h1") ∷ (codes "a", codes "h2") ∷ (codes "b", codes "h3") ∷ []

cast_all-prepares_example :
    (round_of key (
      cast_all 1
        (vote stage_prepare (codes "z") 1)
        key
        three_votes
        (at_stage PbftStage.prepare (codes "a" ∷ [])))).state
    ≡ PbftStage.commit
unfolding round_of lookup text_eq voters_of voters_in stages_of quorum_size contains
cast_all-prepares_example =
    cast_all-prepares 1 (vote stage_prepare (codes "z") 1) key three_votes
      (at_stage PbftStage.prepare (codes "a" ∷ [])) refl refl refl (ground arith)
      (refl, (refl, (refl, tt))) (ground arith)

abbrev three : List Text
three = codes "a" ∷ codes "b" ∷ codes "c" ∷ []

cast_all-executes_example :
    (round_of key (
      cast_all 1
        (vote stage_commit (codes "z") 1)
        key
        three_votes
        (at_stage PbftStage.commit three))).state
    ≡ PbftStage.executed
unfolding round_of lookup text_eq voters_of voters_in stages_of quorum_size contains
cast_all-executes_example =
    cast_all-executes 1 (vote stage_commit (codes "z") 1) key three three_votes
      (at_stage PbftStage.commit three) refl refl refl (ground arith)
      (refl, λ x h. absurd (ground (arith, h)), tt) (refl, (refl, (refl, tt)))
      (refl, (refl, (refl, tt))) (ground arith)
