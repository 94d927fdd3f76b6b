-- ===== src/ProofChain/Printed.antt =====
-- The JSON that crypto/ProofChain.hpp prints: the latest link, one proof, and the whole chain. A
-- file is its path and its contents; whether a path can be opened is a parameter.
use neuro_mesh.Prelude.{
  ℕ, Bool, Option, none, some, List, [], ◌∷◌, ◌++◌, Text, codes, if◌then◌else◌, get_elem?,
  get_last?,
}
use neuro_mesh.Prelude.Decimal.{to_text, int_to_text}
use neuro_mesh.ProofChain.Merkle.{sibling_path}
use neuro_mesh.ProofChain.{ProofChain, ProofLink, event_code, leaves, link_hash_of, rebuild_merkle}

abbrev chain_path_prefix : Text
chain_path_prefix = codes "/tmp/neuro_proof_"

-- The object that both `get_latest_json` and `export_file` write for a link.
unfoldable pub link_json : ProofLink → Text
unfolding event_code to_text int_to_text
link_json l =
    codes "{\"seq\":"
    ++ to_text l.sequence
    ++ codes ",\"event\":"
    ++ to_text (event_code l.event_type)
    ++ codes ",\"node\":\""
    ++ l.node_id
    ++ codes "\",\"target\":\""
    ++ l.target_id
    ++ codes "\",\"data_hash\":\""
    ++ l.data_hash
    ++ codes "\",\"link_hash\":\""
    ++ l.link_hash
    ++ codes "\",\"parent_hash\":\""
    ++ l.parent_hash
    ++ codes "\",\"sig\":\""
    ++ l.signature_hex
    ++ codes "\",\"ts_us\":"
    ++ int_to_text l.timestamp_us
    ++ codes "}"

unfoldable pub get_latest_json : ProofChain → Text
unfolding link_json
get_latest_json c = elim (get_last? c.links) [ none ↦ codes "{}" | some l ↦ link_json l ]

abbrev quoted : Text → Text
quoted s = codes "\"" ++ s ++ codes "\""

-- The siblings, with a comma before each but the first.
unfoldable pub siblings_json : List Text → Text
siblings_json [] = []
siblings_json (s ∷ []) = quoted s
siblings_json (s ∷ t ∷ siblings) = quoted s ++ codes "," ++ siblings_json (t ∷ siblings)

unfoldable pub proof_json : Text → ℕ → Text → Text → List Text → Text
unfolding siblings_json to_text
proof_json node_id seq leaf_hash root siblings =
    codes "{\"node_id\":\""
    ++ node_id
    ++ codes "\",\"seq\":"
    ++ to_text seq
    ++ codes ",\"leaf_hash\":\""
    ++ leaf_hash
    ++ codes "\",\"root_hash\":\""
    ++ root
    ++ codes "\",\"siblings\":["
    ++ siblings_json siblings
    ++ codes "]}\n"

-- The links, with a comma after each but the last.
unfoldable pub links_json : List ProofLink → Text
unfolding link_json
links_json [] = []
links_json (l ∷ []) = codes "    " ++ link_json l ++ codes "\n"
links_json (l ∷ m ∷ links) = codes "    " ++ link_json l ++ codes ",\n" ++ links_json (m ∷ links)

unfoldable pub export_file : (Text → Bool) → ProofChain → Option (Text × Text)
unfolding links_json
export_file opens c =
    let path = chain_path_prefix ++ c.node_id ++ codes ".proof" in
    if opens path
    then some (
      path,
      codes "{\n  \"node_id\": \""
          ++ c.node_id
          ++ codes "\",\n"
          ++ codes "  \"links\": [\n"
          ++ links_json c.links
          ++ codes "  ]\n}\n",
    )
    else none

module _ (digest : Text → Option (List ℕ)) where
  unfoldable pub export_proof_to_file :
      (Text → Bool) → ℕ → ProofChain → ProofChain × Option (Text × Text)
  unfolding rebuild_merkle sibling_path proof_json
  export_proof_to_file opens seq c = elim (get_elem? c.links seq) [
    | none ↦ (c, none)
    | some l ↦
        let d = rebuild_merkle digest c in
        let path =
          chain_path_prefix ++ c.node_id ++ codes "_proof_" ++ to_text seq ++ codes ".json" in
        let siblings = sibling_path (link_hash_of digest) seq (leaves c.links) in
        if opens path
        then (d, some (path, proof_json c.node_id seq l.link_hash d.merkle_root siblings))
        else (d, none)
  ]
