-- ===== src/Pbft/Vote/Safety.antt =====
-- The rounds of `advance_state` in consensus/PBFT.hpp: how they move, and with which votes.
use neuro_mesh.Prelude.{
  ℕ, ◌≤◌, ◌<◌, ◌≡◌, refl, ◌≢◌, ◌⊎◌, inl, inr, true, false, ◌∙◌, none, some, List, [], Text,
  text_key, text_eq_refl, length, arith, Bool-cases, Option-cases, ap, subst,
}
use neuro_mesh.Prelude.Dict.{lookup, contains, add, contains-add, Dict}
use neuro_mesh.Pbft.Advance.{
  stage_prepare, stage_commit, compute_message_hash, cleanup_stale_rounds,
}
use neuro_mesh.Pbft.Registry.{round_key_of, round_of}
use neuro_mesh.Pbft.Types.{
  PbftConsensus, PbftStage, P2pMessage, Platform, ConsensusRound, quorum_size,
}
use neuro_mesh.Pbft.Vote.Casts.{advance_state-Cast, Alike}
use neuro_mesh.Pbft.Vote.Moves.{
  MovesTo, Moved, advance_round-Moved, voters_of-set_voters, round_of-set_round,
}
use neuro_mesh.Pbft.Vote.{
  stages_of, voters_of, voters_in, set_voters, set_round, cast_vote, advance_state,
  verify_quorum_intersection, stages_intersect, common,
}

pub voters_of-Alike :
    (k s : Text) {p q : PbftConsensus} → Alike p q → voters_of k s q ≡ voters_of k s p
unfolding voters_of
voters_of-Alike k s a = rw a.vote_registry

pub round_of-Alike : (k : Text) {p q : PbftConsensus} → Alike p q → round_of k q ≡ round_of k p
unfolding round_of
round_of-Alike k a = rw a.rounds

quorum_size-Alike : {p q : PbftConsensus} → Alike p q → quorum_size q ≡ quorum_size p
unfolding quorum_size
quorum_size-Alike a = rw a.total_nodes

module _ (now : ℕ) (msg : P2pMessage) (hash key : Text) (p : PbftConsensus) where
  -- The state with the vote counted.
  abbrev voted : PbftConsensus
  voted = set_voters key msg.stage_str (add msg.sender_id (voters_of key msg.stage_str p)) p

  cast_vote-Moved :
      let (q, stage) = cast_vote now msg hash key p in
      stage ≢ PbftStage.idle
      → (contains msg.sender_id (voters_of key msg.stage_str p) ≡ false)
        × Moved now msg hash key voted q stage
  unfolding cast_vote
  cast_vote-Moved h = elim (Bool-cases (contains msg.sender_id (voters_of key msg.stage_str p))) [
    | inl again ↦ absurd (h (rw again))
    | inr fresh ↦ (fresh, rw fresh (advance_round-Moved now msg hash key voted (rw fresh at h)))
  ]

-- What `advance_state` has done when it reports a new stage of the round.
pub record RoundMoved (env : Platform) (now : ℕ) (msg : P2pMessage) (p q : PbftConsensus)
    (stage : PbftStage) : Type 0 where
  pub new_vote :
      let key = round_key_of env msg.evidence_json msg.target_id in
      contains msg.sender_id (voters_of key msg.stage_str (cleanup_stale_rounds now p)) ≡ false
  pub counted :
      let key = round_key_of env msg.evidence_json msg.target_id in
      contains msg.sender_id (voters_of key msg.stage_str q) ≡ true
  pub along :
      let key = round_key_of env msg.evidence_json msg.target_id in
      MovesTo msg.stage_str
        (length (voters_of key msg.stage_str q))
        (quorum_size q)
        (verify_quorum_intersection key q)
        (round_of key (cleanup_stale_rounds now p)).state
        stage
  pub reached : (round_of (round_key_of env msg.evidence_json msg.target_id) q).state ≡ stage

module _ (k : Text) (round : ConsensusRound) (p : PbftConsensus) where
  pub voters_of-set_round : (j s : Text) → voters_of j s (set_round k round p) ≡ voters_of j s p
  unfolding voters_of
  voters_of-set_round j s = refl

  quorum_size-set_round : quorum_size (set_round k round p) ≡ quorum_size p
  unfolding quorum_size
  quorum_size-set_round = refl

  intersection-set_round :
      (j : Text)
      → verify_quorum_intersection j (set_round k round p) ≡ verify_quorum_intersection j p
  unfolding verify_quorum_intersection quorum_size
  intersection-set_round j = refl

pub round_of-set_voters :
    (j k s : Text) (voters : List Text) (p : PbftConsensus)
    → round_of j (set_voters k s voters p) ≡ round_of j p
unfolding round_of set_voters
round_of-set_voters j k s voters p = refl

ruleset set_round_laws = (voters_of-set_round, quorum_size-set_round, intersection-set_round)

Moved-RoundMoved :
    (env : Platform) (now : ℕ) (msg : P2pMessage) (p s q : PbftConsensus) (stage : PbftStage)
    → let hash = compute_message_hash env msg in
      let key = round_key_of env msg.evidence_json msg.target_id in
      Alike (cleanup_stale_rounds now p) s
      → contains msg.sender_id (voters_of key msg.stage_str s) ≡ false
      → Moved now msg hash key (voted now msg hash key s) q stage
      → RoundMoved env now msg p q stage
Moved-RoundMoved env now msg p s q stage alike fresh moved =
    let hash : Text = compute_message_hash env msg in
    let key : Text = round_key_of env msg.evidence_json msg.target_id in
    let old : List Text = voters_of key msg.stage_str s in
    let from =
      round_of-set_voters key key msg.stage_str (add msg.sender_id old) s
      ∙ round_of-Alike key alike in
    record {
      new_vote = rw (← voters_of-Alike key msg.stage_str alike) fresh;
      counted =
          rw (moved.result, voters_of-set_round, voters_of-set_voters, text_eq_refl)
            (rw text_eq_refl (rw (contains-add msg.sender_id msg.sender_id old) (rw text_eq_refl)));
      along = rw moved.result (simp set_round_laws (rw (← from) moved.along));
      reached = rw moved.result (rw round_of-set_round (rw text_eq_refl refl));
    }

-- If a message makes `advance_state` report a stage, its sender is neither banned nor unknown and
-- had not voted at this stage, the vote is now counted, and the round stands at that stage, one step
-- along idle, prepare, commit, executed: by a proposal, by a quorum of PREPARE votes, or by a quorum
-- of COMMIT votes that meets the PREPARE votes.
pub advance_state-RoundMoved :
    (env : Platform) (now : ℕ) (msg : P2pMessage) (p : PbftConsensus)
    → let (q, stage) = advance_state env now msg p in
      stage ≢ PbftStage.idle
      → (contains msg.sender_id p.banned_peers ≡ false)
        × (lookup msg.sender_id p.peer_public_keys ≢ none)
        × RoundMoved env now msg p q stage
advance_state-RoundMoved env now msg p h =
    let (s, c) = advance_state-Cast env now msg p h in
    let hash : Text = compute_message_hash env msg in
    let key : Text = round_key_of env msg.evidence_json msg.target_id in
    let (fresh, moved) = cast_vote-Moved now msg hash key s (λ e. h (ap (λ r. r.1) c.result ∙ e)) in
    (c.not_banned, c.known, rw c.result (Moved-RoundMoved env now msg p s _ _ c.alike fresh moved))

quorum_size-ge-one : (p : PbftConsensus) → 1 ≤ quorum_size p
unfolding quorum_size
quorum_size-ge-one p = omega arith

voters_in-none :
    (stage : Text) (stages : Dict Text (List Text))
    → lookup stage stages ≡ none
    → voters_in stage stages ≡ []
unfolding voters_in
voters_in-none stage stages e = ground arith

voters_in-some :
    (stage : Text) (stages : Dict Text (List Text)) (voters : List Text)
    → lookup stage stages ≡ some voters
    → voters_in stage stages ≡ voters
unfolding voters_in
voters_in-some stage stages voters e = ground arith

-- What the intersection test says of the voters, where a quorum has voted COMMIT.
stages_intersect-voters :
    (quorum : ℕ) (stages : Dict Text (List Text))
    → 1 ≤ quorum
    → stages_intersect quorum stages ≡ true
    → quorum ≤ length (voters_in stage_commit stages)
    → (length (voters_in stage_prepare stages) < quorum)
      ⊎ (quorum ≤ common (voters_in stage_prepare stages) (voters_in stage_commit stages))
unfolding stages_intersect
stages_intersect-voters quorum stages pos h enough =
    elim (Option-cases (lookup stage_prepare stages)) [
      | inl ep ↦ let e = voters_in-none stage_prepare stages ep in ground arith
      | inr (prepared, ep) ↦
          let e = voters_in-some stage_prepare stages prepared ep in
          elim (Option-cases (lookup stage_commit stages)) [
            | inl ec ↦ let e' = voters_in-none stage_commit stages ec in absurd (ground arith)
            | inr (committed, ec) ↦
                let e' = voters_in-some stage_commit stages committed ec in ground arith
          ]
    ]

verify_quorum_intersection-stages :
    (key : Text) (p : PbftConsensus)
    → verify_quorum_intersection key p ≡ stages_intersect (quorum_size p) (stages_of key p)
unfolding verify_quorum_intersection stages_of stages_intersect lookup
verify_quorum_intersection-stages key p = elim (Option-cases (lookup key p.vote_registry)) [
  | inl e ↦ rw (e, verify_quorum_intersection, stages_of)
  | inr (stages, e) ↦ rw (e, verify_quorum_intersection, stages_of)
]

intersection-voters :
    (key : Text) (p : PbftConsensus)
    → verify_quorum_intersection key p ≡ true
    → quorum_size p ≤ length (voters_of key stage_commit p)
    → (length (voters_of key stage_prepare p) < quorum_size p)
      ⊎ (quorum_size p ≤ common (voters_of key stage_prepare p) (voters_of key stage_commit p))
unfolding voters_of
intersection-voters key p h enough =
    stages_intersect-voters (quorum_size p) (stages_of key p) (quorum_size-ge-one p)
      (rw verify_quorum_intersection-stages at h) enough

-- A round is reported EXECUTED only on a COMMIT vote, from the commit stage, when a quorum has
-- voted COMMIT, and when a quorum of the COMMIT voters also voted PREPARE, unless fewer PREPARE
-- votes than a quorum are left.
pub advance_state-executed :
    (env : Platform) (now : ℕ) (msg : P2pMessage) (p : PbftConsensus)
    → (advance_state env now msg p).1 ≡ PbftStage.executed
    → let q = (advance_state env now msg p).0 in
      let key = round_key_of env msg.evidence_json msg.target_id in
      (msg.stage_str ≡ stage_commit)
      × ((round_of key (cleanup_stale_rounds now p)).state ≡ PbftStage.commit)
      × (quorum_size q ≤ length (voters_of key stage_commit q))
      × ((length (voters_of key stage_prepare q) < quorum_size q)
          ⊎ (quorum_size q ≤ common (voters_of key stage_prepare q) (voters_of key stage_commit q)))
advance_state-executed env now msg p h =
    let q : PbftConsensus = (advance_state env now msg p).0 in
    let key : Text = round_key_of env msg.evidence_json msg.target_id in
    let (free, known, moved) = advance_state-RoundMoved env now msg p (λ e. ground arith) in
    elim moved.along [
      | inl (_, to, _) ↦ absurd (ground arith)
      | inr (inl (_, to, _, _)) ↦ absurd (ground arith)
      | inr (inr (from, _, at_commit, enough, overlap)) ↦
          let votes : quorum_size q ≤ length (voters_of key stage_commit q) =
            subst (λ s. quorum_size q ≤ length (voters_of key s q)) at_commit enough in
          (at_commit, from, votes, intersection-voters key q overlap votes)
    ]
