-- ===== src/Pbft/Vote/Progress.antt =====
-- How a vote keeps a round moving a round on, in `advance_state` of consensus/PBFT.hpp.
pub mod Phases
pub mod Commits
use neuro_mesh.Prelude.{
  ℕ, suc, ◌≤◌, ◌<◌, ◌≡◌, ◌≢◌, refl, sym, ap, ◌∙◌, subst, ◌⊎◌, inl, inr, Bool, true, false, ◌&&◌,
  Option, none, some, List, [], ◌∷◌, Text, text_key, text_eq, text_eq_refl, text_eq_iff,
  if◌then◌else◌, leb, ltb, length, keep_if, map, arith, Bool-cases, option_elim, if_elim, if_intro,
}
use neuro_mesh.Prelude.Dict.{lookup, contains, add, remove, Distinct, contains-add, add-Distinct}
use neuro_mesh.Prelude.Int.{ℤ, eq_ℤ, eq_ℤ_iff}
use neuro_mesh.Prelude.Sets.{Subset, length-le-Subset, contains-keep_if}
use neuro_mesh.Pbft.Advance.{stage_prepare, stage_commit}
use neuro_mesh.Pbft.Registry.{round_of}
use neuro_mesh.Pbft.Types.{PbftConsensus, PbftStage, P2pMessage, ConsensusRound, quorum_size}
use neuro_mesh.Pbft.Vote.Moves.{voters_of-set_voters, round_of-set_round}
use neuro_mesh.Pbft.Vote.Safety.{voters_of-set_round, round_of-set_voters}
use neuro_mesh.Pbft.Vote.{
  Verdict, stays, moves, parts, stages_of, voters_in, voters_of, set_voters, common,
  stages_intersect, verify_quorum_intersection, decide_move, opened, settle, set_round,
  advance_round, cast_vote,
}

-- Votes on one round at one stage, in their order, each with its sender and its hash.
unfoldable pub cast_all : ℕ → P2pMessage → Text → List (Text × Text) → PbftConsensus → PbftConsensus
unfolding cast_vote
cast_all now msg key [] p = p
cast_all now msg key ((sender, hash) ∷ votes) p =
    cast_all now msg key votes (cast_vote now (record msg { sender_id = sender }) hash key p).0

opened-busy :
    (now : ℕ) (msg : P2pMessage) (hash key : Text) (round : ConsensusRound)
    → round.state ≢ PbftStage.idle
    → opened now msg hash key round ≡ round
unfolding opened
opened-busy now msg hash key round h = ground arith

add-fresh : (x : Text) (xs : List Text) → contains x xs ≡ false → add x xs ≡ x ∷ xs
unfolding add
add-fresh x xs h = rw (add, h) refl

module _ (now : ℕ) (msg : P2pMessage) (hash key : Text) (p : PbftConsensus) where
  abbrev pub voters : List Text
  voters = add msg.sender_id (voters_of key msg.stage_str p)

  abbrev pub voted : PbftConsensus
  voted = set_voters key msg.stage_str voters p

  abbrev pub verdict : Verdict
  verdict =
      decide_move msg.stage_str (length voters) (quorum_size p)
        (verify_quorum_intersection key voted) (round_of key p).state

  -- A vote that is new, on a round under way in its view, is settled by the verdict.
  cast_vote-settle :
      contains msg.sender_id (voters_of key msg.stage_str p) ≡ false
      → (round_of key p).state ≢ PbftStage.idle
      → (round_of key p).view ≡ msg.view
      → cast_vote now msg hash key p
        ≡ settle msg key (record (round_of key p) { last_activity = now }) verdict voted
  unfolding cast_vote advance_round quorum_size set_voters
  cast_vote-settle fresh busy same_view =
      let same : round_of key voted ≡ round_of key p =
        round_of-set_voters key key msg.stage_str voters p in
      let counted : voters_of key msg.stage_str voted ≡ voters =
        voters_of-set_voters key msg.stage_str key msg.stage_str voters p
        ∙ ground (arith, text_eq_refl key, text_eq_refl msg.stage_str) in
      let view : eq_ℤ (round_of key p).view msg.view ≡ true =
        (eq_ℤ_iff (round_of key p).view msg.view).1 same_view in
      rw
        (
          cast_vote,
          fresh,
          advance_round,
          same,
          opened-busy now msg hash key (round_of key p) busy,
          view,
          counted,
        )
        refl

-- Under way in a view at a stage of votes: at the stage `to` already, or at `from` with too few votes.
pub record Standing (key stage : Text) (view : ℤ) (from to : PbftStage) (p : PbftConsensus)
    : Type 0 where
  pub same_view : (round_of key p).view ≡ view
  pub progress :
      ((round_of key p).state ≡ to)
      ⊎ (((round_of key p).state ≡ from) × (length (voters_of key stage p) < quorum_size p))

-- What a counted vote changes, apart from the state of its round.
pub record Counted (msg : P2pMessage) (key : Text) (p q : PbftConsensus) : Type 0 where
  pub votes : voters_of key msg.stage_str q ≡ add msg.sender_id (voters_of key msg.stage_str p)
  pub others :
      (stage : Text)
      → text_eq stage msg.stage_str ≡ false
      → voters_of key stage q ≡ voters_of key stage p
  pub quorum : quorum_size q ≡ quorum_size p

module _ (now : ℕ) (msg : P2pMessage) (hash key : Text) (p : PbftConsensus) where
  settled-Counted :
      (round : ConsensusRound) → Counted msg key p (set_round key round (voted now msg hash key p))
  unfolding voters_of set_voters quorum_size voters_in stages_of
  settled-Counted round = record {
    votes =
        voters_of-set_voters key msg.stage_str key msg.stage_str (voters now msg hash key p) p
        ∙ ground (arith, text_eq_refl key, text_eq_refl msg.stage_str);
    others = λ stage other.
        voters_of-set_voters key stage key msg.stage_str (voters now msg hash key p) p
        ∙ ground (arith, other);
    quorum = refl;
  }

  -- The verdict takes the round to the next stage with enough votes, and leaves it there.
  pub record Advances (from to : PbftStage) : Type 0 where
    pub decides :
        (round_of key p).state ≡ from
        → verdict now msg hash key p
          ≡ (if leb (quorum_size p) (length (voters now msg hash key p)) then moves to else stays)
    pub rests : (round_of key p).state ≡ to → verdict now msg hash key p ≡ stays

  abbrev pub Next : PbftStage → PbftStage → PbftConsensus → Type 0
  Next from to q = Standing key msg.stage_str msg.view from to q × Counted msg key p q

  rests-Next :
      (from to : PbftStage)
      → contains msg.sender_id (voters_of key msg.stage_str p) ≡ false
      → to ≢ PbftStage.idle
      → (round_of key p).view ≡ msg.view
      → Advances from to
      → (round_of key p).state ≡ to
      → Next from to (cast_vote now msg hash key p).0
  unfolding settle
  rests-Next from to fresh busy view a at_to =
      let round : ConsensusRound = record (round_of key p) { last_activity = now } in
      let after : (cast_vote now msg hash key p).0
          ≡ set_round key round (voted now msg hash key p) =
        rw (cast_vote-settle now msg hash key p fresh (λ e. busy cc) view, a.rests at_to) refl in
      rw after (
        record {
          same_view = rw round_of-set_round (rw text_eq_refl view);
          progress = inl (rw round_of-set_round (rw text_eq_refl at_to));
        },
        settled-Counted round,
      )

  decides-Next :
      (from to : PbftStage)
      → contains msg.sender_id (voters_of key msg.stage_str p) ≡ false
      → from ≢ PbftStage.idle
      → (round_of key p).view ≡ msg.view
      → Advances from to
      → (round_of key p).state ≡ from
      → Next from to (cast_vote now msg hash key p).0
  unfolding settle
  decides-Next from to fresh busy view a at_from =
      let round : ConsensusRound = record (round_of key p) { last_activity = now } in
      let cast = cast_vote-settle now msg hash key p fresh (λ e. busy cc) view in
      elim (Bool-cases (leb (quorum_size p) (length (voters now msg hash key p)))) [
        | inl enough ↦
            let moved : ConsensusRound = record round { state = to } in
            let after : (cast_vote now msg hash key p).0
                ≡ set_round key moved (voted now msg hash key p) =
              rw (cast, a.decides at_from, enough) refl in
            rw after (
              record {
                same_view = rw round_of-set_round (rw text_eq_refl view);
                progress = inl (rw round_of-set_round (rw text_eq_refl refl));
              },
              settled-Counted moved,
            )
        | inr few ↦
            let after : (cast_vote now msg hash key p).0
                ≡ set_round key round (voted now msg hash key p) =
              rw (cast, a.decides at_from, few) refl in
            let counted : Counted msg key p (set_round key round (voted now msg hash key p)) =
              settled-Counted round in
            rw after (
              record {
                same_view = rw round_of-set_round (rw text_eq_refl view);
                progress = inr (
                  rw round_of-set_round (rw text_eq_refl at_from),
                  rw (counted.votes, counted.quorum) (ground arith),
                );
              },
              counted,
            )
      ]

  -- A vote that the verdict fits keeps a round under way, and is counted.
  pub cast_vote-Next :
      (from to : PbftStage)
      → from ≢ PbftStage.idle
      → to ≢ PbftStage.idle
      → (contains msg.sender_id (voters_of key msg.stage_str p) ≡ false → Advances from to)
      → Standing key msg.stage_str msg.view from to p
      → Next from to (cast_vote now msg hash key p).0
  unfolding cast_vote add
  cast_vote-Next from to from_busy to_busy a s =
      elim (Bool-cases (contains msg.sender_id (voters_of key msg.stage_str p))) [
        | inl again ↦
            let after : cast_vote now msg hash key p ≡ (p, PbftStage.idle) =
              rw (cast_vote, again) refl in
            rw after (
              s,
              record { votes = rw (add, again) refl; others = λ stage other. refl; quorum = refl },
            )
        | inr fresh ↦ elim s.progress [
          | inl at_to ↦ rests-Next from to fresh to_busy s.same_view (a fresh) at_to
          | inr (at_from, few) ↦ decides-Next from to fresh from_busy s.same_view (a fresh) at_from
        ]
      ]
