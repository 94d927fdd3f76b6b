-- ===== src/Pbft/Registry/Prune.antt =====
-- `prune_peer` of consensus/PBFT.hpp.
use neuro_mesh.Prelude.{
  ◌≡◌, refl, false, none, some, List, [], ◌∷◌, Text, text_key, text_eq, if◌then◌else◌, arith, ap,
  ◌∙◌,
}
use neuro_mesh.Prelude.Dict.{Dict, lookup, contains, remove, lookup-erase, contains-remove}
use neuro_mesh.Pbft.Registry.{prune_peer, forget_votes, forget_in_stages}
use neuro_mesh.Pbft.Types.{PbftConsensus, no_votes}
use neuro_mesh.Pbft.Vote.{stages_of, voters_in, voters_of}

voters_in-forget :
    (x stage : Text) (stages : Dict Text (List Text))
    → voters_in stage (forget_in_stages x stages) ≡ remove x (voters_in stage stages)
unfolding voters_in forget_in_stages lookup remove
voters_in-forget x stage [] = refl
voters_in-forget x stage ((s, voters) ∷ stages) = ground (arith, voters_in-forget x stage stages)

voters_of-forget :
    (x key : Text) (p : PbftConsensus) (registry : Dict Text (Dict Text (List Text)))
    → elim (lookup key (forget_votes x registry)) [ none ↦ no_votes | some stages ↦ stages ]
      ≡ forget_in_stages x (elim (lookup key registry) [ none ↦ no_votes | some stages ↦ stages ])
unfolding forget_votes lookup forget_in_stages
voters_of-forget x key p [] = refl
voters_of-forget x key p ((k, stages) ∷ registry) =
    ground (arith, voters_of-forget x key p registry)

-- A pruned peer has no key, no history, no registration and no vote in any round, and every other
-- peer keeps all of these.
pub prune_peer-others :
    (x y key stage : Text) (p : PbftConsensus)
    → let q = prune_peer x p in
      (lookup y q.peer_public_keys ≡ (if text_eq y x then none else lookup y p.peer_public_keys))
      × (lookup y q.message_history ≡ (if text_eq y x then none else lookup y p.message_history))
      × (contains y q.registered_peers
          ≡ (if text_eq y x then false else contains y p.registered_peers))
      × (contains y (voters_of key stage q)
          ≡ (if text_eq y x then false else contains y (voters_of key stage p)))
unfolding prune_peer voters_of stages_of
prune_peer-others x y key stage p = (
  lookup-erase y x p.peer_public_keys,
  lookup-erase y x p.message_history,
  contains-remove y x p.registered_peers,
  ap (λ stages. contains y (voters_in stage stages)) (voters_of-forget x key p p.vote_registry)
      ∙ ap (contains y) (voters_in-forget x stage _)
      ∙ contains-remove y x _,
)
