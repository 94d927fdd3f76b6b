-- ===== src/Peers/Trust.antt =====
-- Trust in a peer's key, in consensus/PeerManager.cpp: pinned certificates, keys that are known
-- beforehand, and the confirmation of a key on two discovery paths.
use neuro_mesh.Prelude.{
  ℕ, Bool, true, false, not, ◌&&◌, Option, none, some, [], Text, text_key, text_eq, is_empty,
  if◌then◌else◌, ◌==◌, bit_and, bit_or,
}
use neuro_mesh.Prelude.Dict.{lookup, has_key, insert, erase}
use neuro_mesh.Peers.Registry.{adopt_key}
use neuro_mesh.Peers.Types.{
  PeerEntry, TofuEntry, PeerManager, PathConfirmResult, path_beacon, path_announce,
}

unfoldable pub verify_tls_cert : Text → Text → PeerManager → Bool
verify_tls_cert peer_id cert_fingerprint p = elim (lookup peer_id p.tofu_trust) [
  | none ↦ true
  | some entry ↦
      if is_empty entry.pinned_tls_fingerprint
      then true
      else text_eq entry.pinned_tls_fingerprint cert_fingerprint
]

unfoldable pub unpin_peer_key : Text → PeerManager → PeerManager
unpin_peer_key node_id p = record p {
  peers = elim (lookup node_id p.peers) [
    | none ↦ p.peers
    | some entry ↦ insert node_id (record entry { public_key_pem = []; verified = false }) p.peers
  ];
  tofu_trust = erase node_id p.tofu_trust;
}

-- `m_tofu_trust[peer_id]`; a time that is still 0 is set.
unfoldable pub pin_entry : ℕ → Text → Option TofuEntry → TofuEntry
pin_entry now fingerprint none = record { pinned_tls_fingerprint = fingerprint; first_seen = now }
pin_entry now fingerprint (some entry) = record {
  pinned_tls_fingerprint = fingerprint;
  first_seen = if entry.first_seen == 0 then now else entry.first_seen;
}

unfoldable pub pin_tls_fingerprint : ℕ → Text → Text → PeerManager → PeerManager
unfolding pin_entry
pin_tls_fingerprint now peer_id fingerprint p = record p {
  tofu_trust =
      insert peer_id (pin_entry now fingerprint (lookup peer_id p.tofu_trust)) p.tofu_trust;
}

unfoldable pub pre_provision_peer_key : Text → Text → PeerManager → PeerManager
pre_provision_peer_key peer_id public_key_pem p = record p {
  pre_provisioned_keys = insert peer_id public_key_pem p.pre_provisioned_keys;
}

unfoldable pub is_peer_pre_provisioned : Text → PeerManager → Bool
is_peer_pre_provisioned peer_id p = has_key peer_id p.pre_provisioned_keys

abbrev both_paths : ℕ
both_paths = bit_or path_beacon path_announce

-- Whether both discovery paths are confirmed.
unfoldable pub is_dual : PeerEntry → Bool
is_dual entry = bit_and entry.confirmed_paths both_paths == both_paths

-- `public_key_pem` is a key, and not the one that is expected.
abbrev pub differs : Text → Text → Bool
differs public_key_pem expected =
    not (is_empty public_key_pem) && not (text_eq expected public_key_pem)

-- The end of `confirm_path`: the path is noted and a missing key is filled in.
unfoldable pub note_path : ℕ → Text → PeerEntry → PeerEntry
unfolding adopt_key
note_path path_flag public_key_pem entry =
    adopt_key public_key_pem
      (record entry { confirmed_paths = bit_or entry.confirmed_paths path_flag })

-- What `confirm_path` makes of the entry of a peer, with the key that is known beforehand if any.
unfoldable pub confirm_entry : ℕ → Text → Option Text → PeerEntry → PeerEntry × PathConfirmResult
unfolding note_path is_dual
confirm_entry path_flag public_key_pem (some expected) entry =
    if differs public_key_pem expected
    then (entry, record { dual_confirmed = false; key_mismatch = true })
    else let noted = note_path path_flag public_key_pem entry in
      (noted, record { dual_confirmed = is_dual noted; key_mismatch = false })
confirm_entry path_flag public_key_pem none entry =
    let noted = note_path path_flag public_key_pem entry in
    if not (bit_and entry.confirmed_paths path_flag == 0)
    then if differs public_key_pem entry.public_key_pem
      then (entry, record { dual_confirmed = false; key_mismatch = true })
      else (entry, record { dual_confirmed = is_dual entry; key_mismatch = false })
    else if not (entry.confirmed_paths == 0)
        && not (is_empty entry.public_key_pem)
        && differs public_key_pem entry.public_key_pem
    then (entry, record { dual_confirmed = false; key_mismatch = true })
    else (noted, record { dual_confirmed = is_dual noted; key_mismatch = false })

unfoldable pub confirm_path : ℕ → Text → Text → PeerManager → PeerManager × PathConfirmResult
unfolding confirm_entry
confirm_path path_flag peer_id public_key_pem p = elim (lookup peer_id p.peers) [
  | none ↦ (p, record { dual_confirmed = false; key_mismatch = false })
  | some entry ↦
      let (confirmed, result) =
        confirm_entry path_flag public_key_pem (lookup peer_id p.pre_provisioned_keys) entry in
      (record p { peers = insert peer_id confirmed p.peers }, result)
]
