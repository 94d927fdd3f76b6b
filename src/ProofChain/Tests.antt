-- ===== src/ProofChain/Tests.antt =====
-- Chains of crypto/ProofChain.hpp over a toy hash, and the theorems at concrete inputs.
use neuro_mesh.Prelude.{
  ℕ, ◌≡◌, refl, true, false, Option, some, List, [], ◌∷◌, Text, codes, text_eq, length, get_elem?,
}
use neuro_mesh.Prelude.Int.{pos}
use neuro_mesh.ProofChain.Chained.{
  Call, perform_all, IsChained, perform_all-new_chain-IsChained, get_proof_path-verifies,
}
use neuro_mesh.ProofChain.Merkle.{verify_path, root_of, sibling_path}
use neuro_mesh.ProofChain.{
  ProofChain, ProofEventType, append, new_link, new_chain, leaves, get_root_hash, get_proof_path,
  verify_proof,
}

-- A hash of one byte, the number of bytes.
abbrev toy_digest : Text → Option (List ℕ)
toy_digest text = some (length text ∷ [])

abbrev appends : List Call
appends =
    Call.append_link (pos 1) ProofEventType.anomaly_detected (codes "x") (codes "data") (codes "s")
    ∷ Call.root_hash
    ∷ Call.append_link (pos 2) ProofEventType.pbft_commit (codes "yy") (codes "d") (codes "s")
    ∷ []

abbrev two_links : ProofChain
two_links = perform_all toy_digest appends (new_chain (codes "n"))

two : length two_links.links ≡ 2
unfolding perform_all append new_chain
two = refl

abbrev second_hash : Text
second_hash = codes "0e"

second : get_elem? (leaves two_links.links) 1 ≡ some second_hash
unfolding perform_all append new_chain new_link
second = refl

perform_all-new_chain-IsChained_example : IsChained toy_digest two_links
perform_all-new_chain-IsChained_example =
    perform_all-new_chain-IsChained toy_digest appends (codes "n")

get_proof_path-verifies_example :
    verify_proof toy_digest
      (get_root_hash toy_digest two_links).1
      second_hash
      (get_proof_path toy_digest 1 two_links).1
    ≡ true
get_proof_path-verifies_example =
    get_proof_path-verifies toy_digest appends (codes "n") second_hash 1 1 two second

abbrev mark : Text → Text
mark text = b'#' ∷ text

-- The third of three leaves does not verify under this hash.
third_fails :
    verify_path mark
      (root_of mark (codes "a" ∷ codes "b" ∷ codes "c" ∷ []))
      (codes "c")
      (sibling_path mark 2 (codes "a" ∷ codes "b" ∷ codes "c" ∷ []))
    ≡ false
unfolding verify_path root_of sibling_path text_eq
third_fails = refl
