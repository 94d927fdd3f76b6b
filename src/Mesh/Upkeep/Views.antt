-- ===== src/Mesh/Upkeep/Views.antt =====
-- For which rounds the liveness monitor of consensus/MeshNode.cpp changes the view.
use neuro_mesh.Prelude.{
  ℕ, suc, ◌+◌, ◌*◌, ◌≤◌, ◌≡◌, ◌≢◌, ◌↔◌, refl, ap, ◌∙◌, true, some, List, [], ◌∷◌, Text, text_key,
  arith, Option-cases, Bool-cases, inl, inr,
}
use neuro_mesh.Prelude.Dict.{Dict, lookup}
use neuro_mesh.Pbft.Registry.{round_key_of, needs_view_change, advance_view, is_executed}
use neuro_mesh.Pbft.Types.{Platform, PbftStage, ConsensusRound}
use neuro_mesh.Mesh.Types.{MeshNode, World}
use neuro_mesh.Mesh.Upkeep.{liveness_evidence, check_views}

-- The round about the evidence of the monitor and the peer is not executed, and has seen no activity for
-- at least 31 seconds, counted in nanoseconds.
abbrev pub IsStalled : Platform → ℕ → Dict Text ConsensusRound → Text → Type 0
IsStalled env now rounds id =
    (round : ConsensusRound) × (lookup (round_key_of env liveness_evidence id) rounds ≡ some round)
    × (round.last_activity + 31 * 1000000000 ≤ now)
    × (round.state ≢ PbftStage.executed)

-- How many of some peers have such a round.
pub data Stalled (env : Platform) (now : ℕ) (rounds : Dict Text ConsensusRound)
    : List Text → ℕ → Type 0 where
  no_peers : Stalled env now rounds [] 0
  stalled :
      (id : Text) (ids : List Text) (k : ℕ)
      → IsStalled env now rounds id
      → Stalled env now rounds ids k
      → Stalled env now rounds (id ∷ ids) (suc k)
  other :
      (id : Text) (ids : List Text) (k : ℕ)
      → ¬ IsStalled env now rounds id
      → Stalled env now rounds ids k
      → Stalled env now rounds (id ∷ ids) k

is_executed_iff : (stage : PbftStage) → (is_executed stage ≡ true) ↔ (stage ≡ PbftStage.executed)
is_executed_iff stage = ground arith

-- A node in another view.
abbrev with_view : MeshNode → ℕ → MeshNode
with_view m view = record m { pbft = record m.pbft { current_view = view } }

module _ (w : World) where
  needs_view_change_iff :
      (now : ℕ) (id : Text) (m : MeshNode)
      → (needs_view_change w.platform now liveness_evidence id m.pbft ≡ true)
        ↔ IsStalled w.platform now m.pbft.rounds id
  unfolding needs_view_change
  needs_view_change_iff now id m =
      let key = round_key_of w.platform liveness_evidence id in
      elim (Option-cases (lookup key m.pbft.rounds)) [
        | inl unknown ↦
            rw (needs_view_change, unknown)
              (λ e. absurd (ground arith), λ (round, known, _, _). absurd (ground arith))
        | inr (round, known) ↦
            rw (needs_view_change, known)
              (
                λ e. (
                  round,
                  refl,
                  ground arith,
                  λ executed. absurd (ground (arith, is_executed_iff round.state)),
                ),
                λ (found, same, old, open_round).
                    let same_round : round ≡ found = ground arith in
                    ground (arith, is_executed_iff round.state),
              )
      ]

  -- The liveness monitor advances the view once for each peer for which a round is kept under the
  -- key of the monitor's own constant evidence and the peer, if that round is not executed and has
  -- seen no activity for at least 31 seconds, and changes nothing else: a round under any other key
  -- never advances the view, however long it has stood still.
  pub check_views-Stalled :
      (ids : List Text) (m : MeshNode)
      → (k : ℕ) × Stalled w.platform (w.now m.outputs) m.pbft.rounds ids k
        × (check_views w ids m
            ≡ record m { pbft = record m.pbft { current_view = m.pbft.current_view + k } })
  unfolding check_views advance_view
  check_views-Stalled [] m = (0, Stalled.no_peers, ap (with_view m) (omega arith))
  check_views-Stalled (id ∷ ids) m =
      let now = w.now m.outputs in
      let advanced : MeshNode = record m { pbft = advance_view m.pbft } in
      elim (Bool-cases (needs_view_change w.platform now liveness_evidence id m.pbft)) [
        | inl needed ↦
            let (k, counted, e) = check_views-Stalled ids advanced in
            (
              suc k,
              Stalled.stalled id ids k ((needs_view_change_iff now id m).0 needed) counted,
              rw (check_views, needed) (e ∙ ap (with_view m) (omega arith)),
            )
        | inr unneeded ↦
            let (k, counted, e) = check_views-Stalled ids m in
            (
              k,
              Stalled.other id ids k
                  (λ is. absurd (ground (arith, (needs_view_change_iff now id m).1 is))) counted,
              rw (check_views, unneeded) e,
            )
      ]
