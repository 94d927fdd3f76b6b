-- ===== src/ProofChain.antt =====
-- The forensic hash chain of crypto/ProofChain.hpp: its links, its operations and their state. The
-- Merkle tree over the links is in ProofChain/Merkle.antt.
pub mod Merkle
pub mod Complete
pub mod Chained
pub mod Printed
pub mod Odd
mod Tests
use neuro_mesh.Prelude.{
  ℕ, suc, ◌%◌, ◌^◌, Bool, true, false, not, ◌&&◌, ◌||◌, Option, none, some, List, [], ◌∷◌, ◌++◌,
  map, Text, codes, if◌then◌else◌, ltb, leb, length, drop, get_elem?, get_last?,
}
use neuro_mesh.Prelude.Decimal.{to_text, int_to_text}
use neuro_mesh.Prelude.Int.{ℤ}
use neuro_mesh.Crypto.Core.{to_hex}
use neuro_mesh.ProofChain.Merkle.{root_of, sibling_path, climb, verify_path}

pub data ProofEventType : Type 0 where
  anomaly_detected : ProofEventType
  pbft_pre_prepare : ProofEventType
  pbft_prepare : ProofEventType
  pbft_commit : ProofEventType
  consensus_reached : ProofEventType
  isolation_executed : ProofEventType
  telemetry_gossip : ProofEventType
  recording_frame : ProofEventType

-- `static_cast<int>` of the enumeration.
unfoldable pub event_code : ProofEventType → ℕ
event_code ProofEventType.anomaly_detected = 0
event_code ProofEventType.pbft_pre_prepare = 1
event_code ProofEventType.pbft_prepare = 2
event_code ProofEventType.pbft_commit = 3
event_code ProofEventType.consensus_reached = 4
event_code ProofEventType.isolation_executed = 5
event_code ProofEventType.telemetry_gossip = 6
event_code ProofEventType.recording_frame = 7

pub record ProofLink : Type 0 where
  pub sequence : ℕ
  pub event_type : ProofEventType
  pub node_id : Text
  pub target_id : Text
  pub data_hash : Text
  pub parent_hash : Text
  pub link_hash : Text
  pub timestamp_us : ℤ
  pub signature_hex : Text

abbrev bar : Text
bar = codes "|"

-- `ProofLink::to_string`, the text that a link's hash is taken of.
unfoldable pub canonical : ProofLink → Text
unfolding event_code to_text
canonical l =
    to_text l.sequence
    ++ bar
    ++ to_text (event_code l.event_type)
    ++ bar
    ++ l.node_id
    ++ bar
    ++ l.target_id
    ++ bar
    ++ l.data_hash
    ++ bar
    ++ l.parent_hash

pub record ProofChain : Type 0 where
  pub node_id : Text
  pub links : List ProofLink
  pub seq : ℕ
  pub merkle_dirty : Bool
  pub merkle_root : Text

abbrev pub max_chain : ℕ
max_chain = 4096

unfoldable pub new_chain : Text → ProofChain
new_chain node_id = record {
  node_id = node_id;
  links = [];
  seq = 0;
  merkle_dirty = false;
  merkle_root = [];
}

-- The link hashes, the first layer of the tree.
abbrev pub leaves : List ProofLink → List Text
leaves links = map (λ l. l.link_hash) links

-- `latest_link_hash`, and the parent of the next link.
unfoldable pub latest_link_hash : List ProofLink → Text
latest_link_hash links = elim (get_last? links) [ none ↦ [] | some l ↦ l.link_hash ]

-- OpenSSL's SHA-256: the bytes of the hash, `none` where no context could be made.
module _ (digest : Text → Option (List ℕ)) where
  -- `ProofLink::sha256_hex`
  unfoldable pub link_hash_of : Text → Text
  unfolding to_hex
  link_hash_of text = elim (digest text) [ none ↦ [] | some hash ↦ to_hex hash ]

  unfoldable pub new_link : ℤ → ProofEventType → Text → Text → Text → ProofChain → ProofLink
  unfolding canonical latest_link_hash link_hash_of
  new_link now type target_id payload sig_hex c =
      let link : ProofLink = record {
        sequence = c.seq;
        event_type = type;
        node_id = c.node_id;
        target_id = target_id;
        data_hash = link_hash_of payload;
        parent_hash = latest_link_hash c.links;
        link_hash = [];
        timestamp_us = now;
        signature_hex = sig_hex;
      } in
      record link { link_hash = link_hash_of (canonical link) }

  -- The oldest link goes when there are more than `max_chain`.
  unfoldable pub append : ℤ → ProofEventType → Text → Text → Text → ProofChain → ProofChain
  unfolding new_link
  append now type target_id payload sig_hex c =
      let links = c.links ++ new_link now type target_id payload sig_hex c ∷ [] in
      record c {
        links = if ltb max_chain (length links) then drop 1 links else links;
        seq = suc c.seq % 2 ^ 64;
        merkle_dirty = true;
      }

  unfoldable pub rebuild_merkle : ProofChain → ProofChain
  unfolding root_of
  rebuild_merkle c =
      if not c.merkle_dirty || leb (length c.links) 0
      then c
      else record c { merkle_root = root_of link_hash_of (leaves c.links); merkle_dirty = false }

  unfoldable pub get_root_hash : ProofChain → ProofChain × Text
  unfolding rebuild_merkle
  get_root_hash c =
      if leb (length c.links) 0 then (c, []) else let d = rebuild_merkle c in (d, d.merkle_root)

  -- `seq` is an index into the links that are left.
  unfoldable pub get_proof_path : ℕ → ProofChain → ProofChain × List Text
  unfolding rebuild_merkle sibling_path
  get_proof_path seq c =
      if leb (length c.links) seq
      then (c, [])
      else (rebuild_merkle c, sibling_path link_hash_of seq (leaves c.links))

  unfoldable pub verify_proof : Text → Text → List Text → Bool
  unfolding verify_path
  verify_proof root_hash leaf_hash siblings = verify_path link_hash_of root_hash leaf_hash siblings
