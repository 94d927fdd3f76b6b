-- ===== src/Pbft/Vote/Progress/Commits.antt =====
-- The COMMIT phase of a round in consensus/PBFT.hpp.
use neuro_mesh.Prelude.{
  ℕ, ◌≤◌, ◌<◌, ◌≡◌, refl, ◌∙◌, subst, inr, Bool, true, List, Text, text_key, text_eq, text_eq_refl,
  text_eq_iff, if◌then◌else◌, leb, ltb, length, keep_if, All, arith, option_elim, if_elim,
}
use neuro_mesh.Prelude.Dict.{Dict, lookup, contains, add, Distinct, contains-add, add-Distinct}
use neuro_mesh.Prelude.Sets.{Subset, length-le-Subset, contains-keep_if}
use neuro_mesh.Pbft.Advance.{stage_prepare, stage_commit}
use neuro_mesh.Pbft.Registry.{round_of}
use neuro_mesh.Pbft.Types.{PbftConsensus, PbftStage, P2pMessage, quorum_size}
use neuro_mesh.Pbft.Vote.{
  moves, stays, stages_of, voters_in, voters_of, set_voters, common, stages_intersect,
  verify_quorum_intersection, decide_move,
}
use neuro_mesh.Pbft.Vote.Progress.{cast_all, voters, voted}
use neuro_mesh.Pbft.Vote.Progress.Phases.{senders, from_sender, Fits, cast_all-Ended, Ended-to}
use neuro_mesh.Pbft.Vote.Moves.{voters_of-set_voters}

decide-commit :
    (n q : ℕ) (o : Bool)
    → (leb q n ≡ true → o ≡ true)
    → (decide_move stage_commit n q o PbftStage.commit
        ≡ (if leb q n then moves PbftStage.executed else stays))
      × (decide_move stage_commit n q o PbftStage.executed ≡ stays)
unfolding decide_move text_eq
decide-commit n q o h = ground arith

-- Where the COMMIT voters have voted PREPARE too, the quorums overlap.
stages_intersect-Subset :
    (q : ℕ) (stages : Dict Text (List Text))
    → Subset (voters_in stage_commit stages) (voters_in stage_prepare stages)
    → Distinct (voters_in stage_commit stages)
    → q ≤ length (voters_in stage_commit stages)
    → stages_intersect q stages ≡ true
unfolding stages_intersect voters_in common
stages_intersect-Subset q stages sub distinct enough =
    let IsTrue : Bool → Type 0 = λ b. b ≡ true in
    option_elim IsTrue (lookup stage_prepare stages) (λ e. refl)
      (λ prepared e.
        if_elim IsTrue (ltb (length prepared) q) (λ few. refl)
          (λ many.
            option_elim IsTrue (lookup stage_commit stages) (λ k. refl)
              (λ committed k.
                let within : Subset committed (keep_if (λ x. contains x committed) prepared) =
                  λ x h.
                    rw (contains-keep_if (λ z. contains z committed) x prepared, h)
                      (subst (λ (voters : List Text). contains x voters ≡ true)
                        (rw (voters_in, e) refl) (sub x (rw (voters_in, k) h))) in
                let apart : Distinct committed = subst Distinct (rw (voters_in, k) refl) distinct in
                let size : length (voters_in stage_commit stages) ≡ length committed =
                  rw (voters_in, k) refl in
                ground (arith, enough, size, length-le-Subset committed _ apart within))))

verify_quorum_intersection-Subset :
    (key : Text) (p : PbftConsensus)
    → Subset (voters_of key stage_commit p) (voters_of key stage_prepare p)
    → Distinct (voters_of key stage_commit p)
    → quorum_size p ≤ length (voters_of key stage_commit p)
    → verify_quorum_intersection key p ≡ true
unfolding verify_quorum_intersection voters_of stages_of
verify_quorum_intersection-Subset key p sub distinct enough =
    option_elim (λ (b : Bool). b ≡ true) (lookup key p.vote_registry) (λ e. refl)
      (λ stages e.
        let same : stages_of key p ≡ stages = rw (stages_of, e) refl in
        stages_intersect-Subset (quorum_size p) stages
          (subst
            (λ (s : Dict Text (List Text)).
              Subset (voters_in stage_commit s) (voters_in stage_prepare s))
            same sub)
          (subst (λ (s : Dict Text (List Text)). Distinct (voters_in stage_commit s)) same distinct)
          (subst (λ (s : Dict Text (List Text)). quorum_size p ≤ length (voters_in stage_commit s))
            same enough))

module _ (now : ℕ) (msg : P2pMessage) (key : Text) (prepared : List Text) where
  -- The voters at PREPARE, and COMMIT voters among them.
  abbrev pub Kept : PbftConsensus → Type 0
  Kept p =
      (voters_of key stage_prepare p ≡ prepared)
      × Subset (voters_of key stage_commit p) prepared
      × Distinct (voters_of key stage_commit p)

  add-Subset :
      (sender : Text) (committed : List Text)
      → contains sender prepared ≡ true
      → Subset committed prepared
      → Subset (add sender committed) prepared
  add-Subset sender committed good sub x h =
      ground (arith, h, good, sub x, contains-add x sender committed, text_eq_iff x sender)

  overlap_lem :
      (sender hash : Text) (p : PbftConsensus)
      → msg.stage_str ≡ stage_commit
      → contains sender prepared ≡ true
      → Kept p
      → let vote = from_sender now msg key PbftStage.commit PbftStage.executed sender in
        quorum_size p ≤ length (voters now vote hash key p)
        → verify_quorum_intersection key (voted now vote hash key p) ≡ true
  unfolding quorum_size set_voters text_eq
  overlap_lem sender hash p is good (same, sub, distinct) enough =
      let committed = voters_of key stage_commit p in
      let after : PbftConsensus = set_voters key stage_commit (add sender committed) p in
      let commits : voters_of key stage_commit after ≡ add sender committed =
        voters_of-set_voters key stage_commit key stage_commit (add sender committed) p
        ∙ ground (arith, text_eq_refl key) in
      let prepares : voters_of key stage_prepare after ≡ prepared =
        voters_of-set_voters key stage_prepare key stage_commit (add sender committed) p
        ∙ ground (arith, text_eq_refl key, same) in
      rw is (
        verify_quorum_intersection-Subset key after
          (rw (commits, prepares) (add-Subset sender committed good sub))
          (rw commits (add-Distinct sender committed distinct)) (rw commits (rw is at enough)))

  commit-Fits :
      msg.stage_str ≡ stage_commit
      → Fits now msg key PbftStage.commit PbftStage.executed
          (λ sender. contains sender prepared ≡ true)
          Kept
  unfolding text_eq
  commit-Fits is = record {
    from_busy = λ e. absurd (ground arith);
    to_busy = λ e. absurd (ground arith);
    fits = λ sender hash p good kept fresh.
        let vote = from_sender now msg key PbftStage.commit PbftStage.executed sender in
        let overlap = λ (h : leb (quorum_size p) (length (voters now vote hash key p)) ≡ true).
          overlap_lem sender hash p is good kept (ground (arith, h)) in
        record {
          decides = λ e. rw (e, is) (decide-commit _ _ _ (rw is at overlap)).0;
          rests = λ e. rw (e, is) (decide-commit _ _ _ (rw is at overlap)).1;
        };
    keeps = λ sender p q good (same, sub, distinct) counted. (
      counted.others stage_prepare (rw is refl) ∙ same,
      rw (rw is at counted.votes) (add-Subset sender _ good sub),
      rw (rw is at counted.votes) (add-Distinct sender _ distinct),
    );
  }

  -- A round at COMMIT is in the view of the votes, and its COMMIT voters, all different and too few for a
  -- quorum, have voted PREPARE. COMMIT votes of a quorum of different senders that have voted PREPARE execute it, in
  -- whatever order they come.
  pub cast_all-executes :
      (votes : List (Text × Text)) (p : PbftConsensus)
      → msg.stage_str ≡ stage_commit
      → (round_of key p).state ≡ PbftStage.commit
      → (round_of key p).view ≡ msg.view
      → length (voters_of key msg.stage_str p) < quorum_size p
      → Kept p
      → All (λ vote. contains vote.0 prepared ≡ true) votes
      → Distinct (senders votes)
      → quorum_size p ≤ length (senders votes)
      → (round_of key (cast_all now msg key votes p)).state ≡ PbftStage.executed
  cast_all-executes votes p is state view few kept good distinct enough =
      Ended-to now msg key PbftStage.commit PbftStage.executed votes p _
        (cast_all-Ended now msg key PbftStage.commit PbftStage.executed
          (λ sender. contains sender prepared ≡ true) Kept votes p (commit-Fits is) good kept
          (record { same_view = view; progress = inr (state, few) }))
        distinct enough
