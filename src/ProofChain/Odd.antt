-- ===== src/ProofChain/Odd.antt =====
-- Leaves without a sibling in crypto/ProofChain.hpp, and links whose number is not their index.
use neuro_mesh.Prelude.{
  ℕ, ◌≤◌, ◌≡◌, refl, true, Option, some, List, [], ◌∷◌, ◌++◌, Text, text_eq, leb, length, get_last?,
  arith,
}
use neuro_mesh.ProofChain.Chained.{IsChained}
use neuro_mesh.ProofChain.Merkle.{
  first_of, climb, climb_one, verify_path, next_layer, reduce, root_of, scan, walk, sibling_path,
}
use neuro_mesh.ProofChain.{ProofChain, ProofLink, max_chain, get_proof_path}

-- With three leaves the third has no sibling in the first layer, where the root takes its hash alone
-- and its proof takes no step. Its proof verifies only if the two different texts have one hash.
pub verify_path-third :
    (h : Text → Text) (a b c : Text)
    → let layer = a ∷ b ∷ c ∷ [] in
      verify_path h (root_of h layer) c (sibling_path h 2 layer)
      ≡ text_eq (h (h (a ++ b) ++ c)) (h (h (a ++ b) ++ h c))
unfolding verify_path root_of sibling_path climb climb_one walk scan reduce first_of next_layer
verify_path-third h a b c = refl

-- On a chain in the state that any history of calls leaves, the path asked for by the number of the
-- latest link is empty, if that number is 4096 or more.
pub get_proof_path-latest :
    (digest : Text → Option (List ℕ)) (c : ProofChain) (l : ProofLink)
    → IsChained digest c
    → get_last? c.links ≡ some l
    → max_chain ≤ l.sequence
    → (get_proof_path digest l.sequence c).1 ≡ []
unfolding get_proof_path
get_proof_path-latest digest c l i e k =
    let outside : leb (length c.links) l.sequence ≡ true = ground (arith, i.bounded) in
    rw outside refl
