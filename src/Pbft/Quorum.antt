-- ===== src/Pbft/Quorum.antt =====
-- The quorum of consensus/PBFT.hpp against the number of nodes.
use neuro_mesh.Prelude.{
  ℕ, ◌⊎◌, inl, inr, true, refl, [], ◌∷◌, codes, text_eq, ◌+◌, ◌-◌, ◌*◌, ◌/◌, ◌%◌, ◌≤◌, ◌≡◌, List,
  Text, text_key, length, arith,
}
use neuro_mesh.Prelude.Dict.{Distinct, contains}
use neuro_mesh.Prelude.Int.{max_one, max_one-ge-one}
use neuro_mesh.Prelude.Sets.{Subset, overlap-ge}
use neuro_mesh.Pbft.Types.{PbftConsensus, quorum_size}
use neuro_mesh.Pbft.Vote.{common}

-- Three quorums and three nodes more are at least twice as many as the nodes, and a quorum can be
-- reached without the third of the other nodes, rounded down,
-- that may be faulty.
pub quorum_size-bounds :
    (p : PbftConsensus)
    → let n = max_one p.total_nodes in
      (2 * n ≤ 3 * quorum_size p + 3) × (quorum_size p + (n - 1) / 3 ≤ n)
unfolding quorum_size
quorum_size-bounds p = omega (arith, max_one-ge-one p.total_nodes)

-- Of n nodes, with f = (n - 1) / 3, two quorums of distinct nodes have at least f + 1 - (n - 1) %
-- 3 nodes in common.
pub quorum_overlap :
    (p : PbftConsensus) (nodes xs ys : List Text) (f : ℕ)
    → length nodes ≡ max_one p.total_nodes
    → f ≡ (length nodes - 1) / 3
    → Distinct nodes
    → Distinct xs
    → Distinct ys
    → Subset xs nodes
    → Subset ys nodes
    → quorum_size p ≤ length xs
    → quorum_size p ≤ length ys
    → f + 1 ≤ common xs ys + (length nodes - 1) % 3
unfolding quorum_size common
quorum_overlap p nodes xs ys f size faulty dn dx dy sx sy qx qy =
    omega (arith, overlap-ge xs ys nodes dx dy dn sx sy)

abbrev six_nodes : List Text
six_nodes = codes "a" ∷ codes "b" ∷ codes "c" ∷ codes "d" ∷ codes "e" ∷ codes "f" ∷ []

abbrev first_half : List Text
first_half = codes "a" ∷ codes "b" ∷ codes "c" ∷ []

abbrev second_half : List Text
second_half = codes "d" ∷ codes "e" ∷ codes "f" ∷ []

halves-Subset :
    (x : Text)
    → (contains x first_half ≡ true) ⊎ (contains x second_half ≡ true)
    → contains x six_nodes ≡ true
unfolding contains
halves-Subset x h = ground arith

-- In a mesh of six nodes two quorums may have no node in common at all.
pub quorums_may_part :
    (p : PbftConsensus)
    → max_one p.total_nodes ≡ 6
    → ¬ (
        (nodes xs ys : List Text)
        → length nodes ≡ max_one p.total_nodes
        → Distinct nodes
        → Distinct xs
        → Distinct ys
        → Subset xs nodes
        → Subset ys nodes
        → quorum_size p ≤ length xs
        → quorum_size p ≤ length ys
        → 1 ≤ common xs ys)
unfolding quorum_size common contains text_eq
quorums_may_part p six meet = absurd (
    omega (
      arith,
      meet six_nodes first_half second_half (omega arith)
          (refl, (refl, (refl, (refl, (refl, (refl, tt)))))) (refl, (refl, (refl, tt)))
          (refl, (refl, (refl, tt))) (λ x h. halves-Subset x (inl h))
          (λ x h. halves-Subset x (inr h)) (omega arith) (omega arith),
    ))
