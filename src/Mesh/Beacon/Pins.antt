-- ===== src/Mesh/Beacon/Pins.antt =====
-- The pins of certificates that discovery beacons leave in consensus/MeshNode.cpp.
use neuro_mesh.Prelude.{
  ℕ, ◌/◌, ◌≡◌, ◌≢◌, refl, true, false, none, some, Text, text_key, text_eq_iff, text_eq_refl,
  is_empty, ◌==◌, arith,
}
use neuro_mesh.Prelude.Dict.{lookup, has_key, insert, lookup-insert}
use neuro_mesh.Peers.Registry.{add_peer, get_peer_key}
use neuro_mesh.Peers.Trust.{
  verify_tls_cert, pin_tls_fingerprint, pin_entry, confirm_path, confirm_entry, differs,
}
use neuro_mesh.Peers.Types.{PeerEntry, PeerManager, path_beacon}
use neuro_mesh.Mesh.Types.{MeshNode, World}
use neuro_mesh.Mesh.Announce.{is_signed}
use neuro_mesh.Mesh.Beacon.{
  Beacon, signed_beacon, is_recent, pin_certificate, admit_beacon, accept_beacon,
}

-- The peer is known with another key than the beacon's, which a discovery path has confirmed; no key
-- was given for it beforehand, and no certificate is pinned for it.
pub record IsStranger (b : Beacon) (entry : PeerEntry) (p : PeerManager) : Type 0 where
  pub known : lookup b.peer_id p.peers ≡ some entry
  pub keyed : is_empty entry.public_key_pem ≡ false
  pub other_key : differs b.peer_pem entry.public_key_pem ≡ true
  pub confirmed : (entry.confirmed_paths == 0) ≡ false
  pub unprovisioned : lookup b.peer_id p.pre_provisioned_keys ≡ none
  pub unpinned : lookup b.peer_id p.tofu_trust ≡ none
  pub fingerprint : is_empty b.tls_fingerprint ≡ false

module _ (b : Beacon) (entry : PeerEntry) (p : PeerManager) (s : IsStranger b entry p)
    (now : ℕ) where
  abbrev pinned : PeerManager
  pinned = pin_tls_fingerprint now b.peer_id b.tls_fingerprint p

  pin-some : (w : World) → pin_certificate w b p now ≡ some pinned
  unfolding pin_certificate verify_tls_cert
  pin-some w = rw (pin_certificate, verify_tls_cert, s.fingerprint, s.unpinned) refl

  add-known :
      (ip : Text)
      → add_peer now b.peer_id ip b.tcp_port b.tls_port b.peer_pem pinned ≡ (pinned, false)
  unfolding add_peer has_key pin_tls_fingerprint
  add-known ip = rw (add_peer, has_key, s.known) refl

  confirm-mismatch : confirm_path path_beacon b.peer_id b.peer_pem pinned ≡ (
    record pinned { peers = insert b.peer_id entry p.peers },
    record { dual_confirmed = false; key_mismatch = true },
  )
  unfolding confirm_path confirm_entry pin_tls_fingerprint
  confirm-mismatch =
      rw (confirm_path, s.known, s.unprovisioned)
        (ground (arith, s.other_key, s.confirmed, s.keyed))

-- A recent beacon that its own key signs names a peer that is known with another key, which some path
-- has confirmed and which was not given beforehand, and for which no certificate is pinned. If the
-- beacon has a fingerprint, the peer keeps its key, but the fingerprint is pinned for it: every other
-- certificate of the peer is then refused.
pub accept_beacon-pins :
    (w : World) (m : MeshNode) (n : ℕ) (b : Beacon) (entry : PeerEntry) (ip other : Text)
    → IsStranger b entry m.peers
    → is_signed w b.peer_pem (signed_beacon n b) b.raw_sig ≡ true
    → is_recent (w.now m.outputs / 1000) b.timestamp ≡ true
    → other ≢ b.tls_fingerprint
    → (get_peer_key b.peer_id (accept_beacon w n b ip m).peers ≡ entry.public_key_pem)
      × (verify_tls_cert b.peer_id other (accept_beacon w n b ip m).peers ≡ false)
unfolding accept_beacon admit_beacon get_peer_key verify_tls_cert pin_tls_fingerprint pin_entry
accept_beacon-pins w m n b entry ip other s signed recent differ =
    let now = w.now m.outputs in
    let reached : accept_beacon w n b ip m ≡ record m {
      peers = record (pinned b entry m.peers s now) {
        peers = insert b.peer_id entry m.peers.peers;
      };
    } =
      rw
        (
          accept_beacon,
          signed,
          recent,
          pin-some b entry m.peers s now w,
          admit_beacon,
          add-known b entry m.peers s now ip,
          confirm-mismatch b entry m.peers s now,
        )
        refl in
    rw
      (
        reached,
        get_peer_key,
        verify_tls_cert,
        lookup-insert b.peer_id b.peer_id entry m.peers.peers,
        lookup-insert b.peer_id b.peer_id
            (pin_entry now b.tls_fingerprint (lookup b.peer_id m.peers.tofu_trust))
            m.peers.tofu_trust,
        text_eq_refl b.peer_id,
        s.unpinned,
        s.fingerprint,
      )
      (refl, ground (arith, text_eq_iff b.tls_fingerprint other))
