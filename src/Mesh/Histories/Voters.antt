-- ===== src/Mesh/Histories/Voters.antt =====
-- Where the voters of a round come from, over the events of consensus/MeshNode.cpp.
use neuro_mesh.Prelude.{ℕ, ◌≡◌, ◌⊎◌, inl, inr, refl, sym, subst, true, some, List, Text, text_key}
use neuro_mesh.Prelude.Dict.{contains}
use neuro_mesh.Pbft.Calls
use neuro_mesh.Pbft.Calls.Voters.{perform-HoldsIfVoter, advance_state-HoldsIfVoter}
use neuro_mesh.Pbft.Registry.{round_key_of}
use neuro_mesh.Pbft.Types.{Platform, PbftConsensus, P2pMessage}
use neuro_mesh.Pbft.Verify.{verify_message}
use neuro_mesh.Pbft.Vote.{advance_state, voters_of}
use neuro_mesh.Mesh.Types.{MeshNode, World}
use neuro_mesh.Mesh.Start.{Event, handle_all}
use neuro_mesh.Mesh.Histories.Votes.{PbftLater, PeersLater}
use neuro_mesh.Mesh.Histories.Discovery.{LaterIfSome}
use neuro_mesh.Mesh.Histories.Events.{handle_all-Later}

abbrev Among : Text → Text → Text → PbftConsensus → Type 0
Among key stage id p = contains id (voters_of key stage p) ≡ true

-- Between two states of the consensus there was one in which `verify_message` accepted a message with
-- which the sender votes at the stage of the round, and `advance_state` then took it.
abbrev pub HasVoted : Platform → PbftConsensus → PbftConsensus → Text → Text → Text → Type 0
HasVoted env p q key stage id =
    (now : ℕ) × (msg : P2pMessage) × (between : PbftConsensus) × PbftLater env p between
    × ((verify_message env now msg between).1 ≡ true)
    × PbftLater env (advance_state env now msg (verify_message env now msg between).0).0 q
    × (msg.sender_id ≡ id)
    × (msg.stage_str ≡ stage)
    × (round_key_of env msg.evidence_json msg.target_id ≡ key)

module _ (env : Platform) (key stage id : Text) (p : PbftConsensus) where
  abbrev WasOrVoted : PbftConsensus → Type 0
  WasOrVoted q = Among key stage id p ⊎ HasVoted env p q key stage id

  WasOrVoted-later :
      (q r : PbftConsensus)
      → ((s : PbftConsensus) → PbftLater env s q → PbftLater env s r)
      → WasOrVoted q
      → WasOrVoted r
  WasOrVoted-later q r later (inl was) = inl was
  WasOrVoted-later q r later (inr (now, msg, between, before, accepted, after, sender, at, round)) =
      inr (now, msg, between, before, accepted, later _ after, sender, at, round)

  PbftLater-WasOrVoted :
      (q : PbftConsensus) → PbftLater env p q → Among key stage id q → WasOrVoted q
  unfolding Calls.perform
  PbftLater-WasOrVoted _ PbftLater.here among = inl among
  PbftLater-WasOrVoted r (PbftLater.next q _ call other before e) among =
      let later : (s : PbftConsensus) → PbftLater env s q → PbftLater env s r =
        λ s up_to. PbftLater.next q r call other up_to e in
      perform-HoldsIfVoter key stage id (WasOrVoted r) env call q other
        (λ was. WasOrVoted-later q r later (PbftLater-WasOrVoted q before was))
        (subst (Among key stage id) e among)
  PbftLater-WasOrVoted r (PbftLater.vote q _ now msg accepted before e) among =
      let seen = (verify_message env now msg q).0 in
      let advanced = (advance_state env now msg seen).0 in
      let later : (s : PbftConsensus) → PbftLater env s q → PbftLater env s r =
        λ s up_to. PbftLater.vote q r now msg accepted up_to e in
      let after : PbftLater env advanced r =
        subst (PbftLater env advanced) (sym e) PbftLater.here in
      advance_state-HoldsIfVoter key stage id (WasOrVoted r) env now msg seen
        (λ sender at round. inr (now, msg, q, before, accepted, after, sender, at, round))
        (perform-HoldsIfVoter key stage id (WasOrVoted r) env (Calls.Call.verify now msg) q refl
          (λ was. WasOrVoted-later q r later (PbftLater-WasOrVoted q before was)))
        (subst (Among key stage id) e among)

-- Whatever events a node handles: whoever then stands among the voters of a stage of a round stood there
-- before, or verify_message has accepted a message of this sender, of this stage and about this round,
-- and advance_state has taken it right after that.
pub handle_all-HasVoted :
    (w : World) (events : List Event) (m n : MeshNode) (key stage id : Text)
    → handle_all w events m ≡ some n
    → contains id (voters_of key stage n.pbft) ≡ true
    → (contains id (voters_of key stage m.pbft) ≡ true)
      ⊎ HasVoted w.platform m.pbft n.pbft key stage id
handle_all-HasVoted w events m n key stage id e among =
    let (pbft, peers) =
      subst (LaterIfSome w m) e (handle_all-Later w m events m (PbftLater.here, PeersLater.here)) in
    PbftLater-WasOrVoted w.platform key stage id m.pbft n.pbft pbft among
