-- ===== src/Pbft/Vote/Progress/Phases.antt =====
-- The votes that end a phase of a round, and the PREPARE phase, in consensus/PBFT.hpp.
use neuro_mesh.Prelude.{
  ℕ, ◌≤◌, ◌<◌, ◌≡◌, ◌≢◌, refl, ◌∙◌, inl, inr, Bool, false, ◌||◌, List, [], ◌∷◌, Text, text_key,
  text_eq, if◌then◌else◌, leb, length, map, All, arith, Bool-cases,
}
use neuro_mesh.Prelude.Dict.{contains, Distinct, contains-add}
use neuro_mesh.Prelude.Sets.{Subset, length-le-Subset}
use neuro_mesh.Pbft.Advance.{stage_prepare}
use neuro_mesh.Pbft.Registry.{round_of}
use neuro_mesh.Pbft.Types.{PbftConsensus, PbftStage, P2pMessage, quorum_size}
use neuro_mesh.Pbft.Vote.{moves, stays, voters_of, decide_move, cast_vote}
use neuro_mesh.Pbft.Vote.Progress.{cast_all, Standing, Counted, Advances, cast_vote-Next}

abbrev pub senders : List (Text × Text) → List Text
senders = map (λ vote. vote.0)

module _ (now : ℕ) (msg : P2pMessage) (key : Text) (from to : PbftStage) where
  abbrev pub from_sender : Text → P2pMessage
  from_sender sender = record msg { sender_id = sender }

  -- What a sender and a state must be like for the verdicts to fit, and that it is kept.
  pub record Fits (Good : Text → Type 0) (Kept : PbftConsensus → Type 0) : Type 0 where
    pub from_busy : from ≢ PbftStage.idle
    pub to_busy : to ≢ PbftStage.idle
    pub fits :
        (sender hash : Text) (p : PbftConsensus)
        → Good sender
        → Kept p
        → contains sender (voters_of key msg.stage_str p) ≡ false
        → Advances now (from_sender sender) hash key p from to
    pub keeps :
        (sender : Text) (p q : PbftConsensus)
        → Good sender
        → Kept p
        → Counted (from_sender sender) key p q
        → Kept q

  -- What the votes leave: a round under way, with the voters among its voters.
  pub record Ended (votes : List (Text × Text)) (p q : PbftConsensus) : Type 0 where
    pub standing : Standing key msg.stage_str msg.view from to q
    pub quorum : quorum_size q ≡ quorum_size p
    pub old : Subset (voters_of key msg.stage_str p) (voters_of key msg.stage_str q)
    pub new : Subset (senders votes) (voters_of key msg.stage_str q)

  pub cast_all-Ended :
      (Good : Text → Type 0) (Kept : PbftConsensus → Type 0) (votes : List (Text × Text))
      (p : PbftConsensus)
      → Fits Good Kept
      → All (λ vote. Good vote.0) votes
      → Kept p
      → Standing key msg.stage_str msg.view from to p
      → Ended votes p (cast_all now msg key votes p)
  unfolding cast_all contains
  cast_all-Ended Good Kept [] p f good kept s = record {
    standing = s;
    quorum = refl;
    old = λ x h. h;
    new = λ x h. absurd (ground arith);
  }
  cast_all-Ended Good Kept ((sender, hash) ∷ votes) p f (here, good) kept s =
      let q : PbftConsensus = (cast_vote now (from_sender sender) hash key p).0 in
      let (standing, counted) =
        cast_vote-Next now (from_sender sender) hash key p from to f.from_busy f.to_busy
          (f.fits sender hash p here kept) s in
      let later =
        cast_all-Ended Good Kept votes q f good (f.keeps sender p q here kept counted) standing in
      let voted_now : (x : Text)
          → contains x (voters_of key msg.stage_str q)
            ≡ (text_eq x sender || contains x (voters_of key msg.stage_str p)) =
        λ x. rw counted.votes (contains-add x sender (voters_of key msg.stage_str p)) in
      record {
        standing = later.standing;
        quorum = later.quorum ∙ counted.quorum;
        old = λ x h. later.old x (rw (voted_now x) (ground (arith, h)));
        new = λ x h. elim (Bool-cases (text_eq x sender)) [
          | inl same ↦ later.old x (rw (voted_now x, same) refl)
          | inr other ↦ later.new x (ground (arith, h, other))
        ];
      }

  -- Enough voters leave no round behind.
  pub Ended-to :
      (votes : List (Text × Text)) (p q : PbftConsensus)
      → Ended votes p q
      → Distinct (senders votes)
      → quorum_size p ≤ length (senders votes)
      → (round_of key q).state ≡ to
  Ended-to votes p q e distinct enough = elim e.standing.progress [
    | inl at_to ↦ at_to
    | inr (at_from, few) ↦
        absurd
          (omega (arith, few, enough, e.quorum, length-le-Subset (senders votes) _ distinct e.new))
  ]

everyone : (votes : List (Text × Text)) → All (λ vote. Unit {0}) votes
everyone [] = tt
everyone (vote ∷ votes) = (tt, everyone votes)

decide-prepare :
    (n q : ℕ) (o : Bool)
    → (decide_move stage_prepare n q o PbftStage.prepare
        ≡ (if leb q n then moves PbftStage.commit else stays))
      × (decide_move stage_prepare n q o PbftStage.commit ≡ stays)
unfolding decide_move text_eq
decide-prepare n q o = ground arith

module _ (now : ℕ) (msg : P2pMessage) (key : Text) where
  prepare-Fits :
      msg.stage_str ≡ stage_prepare
      → Fits now msg key PbftStage.prepare PbftStage.commit (λ sender. Unit) (λ p. Unit)
  prepare-Fits is = record {
    from_busy = λ e. absurd (ground arith);
    to_busy = λ e. absurd (ground arith);
    fits = λ sender hash p good kept fresh. record {
      decides = λ e. rw (e, is) (decide-prepare _ _ _).0;
      rests = λ e. rw (e, is) (decide-prepare _ _ _).1;
    };
    keeps = λ sender p q good kept counted. tt;
  }

  -- A round at PREPARE is in the view of the votes and has too few PREPARE voters for a quorum: PREPARE
  -- votes of a quorum of different senders bring it to COMMIT, in whatever order they come and whoever
  -- voted before.
  pub cast_all-prepares :
      (votes : List (Text × Text)) (p : PbftConsensus)
      → msg.stage_str ≡ stage_prepare
      → (round_of key p).state ≡ PbftStage.prepare
      → (round_of key p).view ≡ msg.view
      → length (voters_of key msg.stage_str p) < quorum_size p
      → Distinct (senders votes)
      → quorum_size p ≤ length (senders votes)
      → (round_of key (cast_all now msg key votes p)).state ≡ PbftStage.commit
  cast_all-prepares votes p is state view few distinct enough =
      Ended-to now msg key PbftStage.prepare PbftStage.commit votes p _
        (cast_all-Ended now msg key PbftStage.prepare PbftStage.commit (λ sender. Unit) (λ q. Unit)
          votes p (prepare-Fits is) (everyone votes) tt
          (record { same_view = view; progress = inr (state, few) }))
        distinct enough
