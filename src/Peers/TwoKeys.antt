-- ===== src/Peers/TwoKeys.antt =====
-- Keys that differ between the two discovery paths in consensus/PeerManager.cpp.
use neuro_mesh.Prelude.{
  ℕ, ◌≡◌, refl, ◌∙◌, true, false, none, some, Text, text_key, text_eq, text_eq_refl, is_empty,
  arith,
}
use neuro_mesh.Prelude.Dict.{lookup, insert, lookup-insert}
use neuro_mesh.Peers.Registry.{adopt_key}
use neuro_mesh.Peers.Trust.{confirm_path, confirm_entry, note_path, is_dual}
use neuro_mesh.Peers.Types.{PeerManager, PeerEntry, path_beacon, path_announce}

first_entry :
    (key : Text) (entry : PeerEntry)
    → entry.confirmed_paths ≡ 0
    → is_empty entry.public_key_pem ≡ false
    → confirm_entry path_beacon key none entry ≡ (
      record entry { confirmed_paths = path_beacon },
      record { dual_confirmed = false; key_mismatch = false },
    )
unfolding confirm_entry note_path adopt_key is_dual
first_entry key entry z h = ground arith

second_entry :
    (entry : PeerEntry)
    → is_empty entry.public_key_pem ≡ false
    → (confirm_entry path_announce entry.public_key_pem none
        (record entry { confirmed_paths = path_beacon })).1
      ≡ record { dual_confirmed = true; key_mismatch = false }
unfolding confirm_entry note_path adopt_key is_dual
second_entry entry h = let same = text_eq_refl entry.public_key_pem in ground arith

confirm_path-known :
    (flag : ℕ) (id key : Text) (p : PeerManager) (entry : PeerEntry)
    → lookup id p.peers ≡ some entry
    → lookup id p.pre_provisioned_keys ≡ none
    → let result = confirm_entry flag key none entry in
      confirm_path flag id key p ≡ (record p { peers = insert id result.0 p.peers }, result.1)
unfolding confirm_path
confirm_path-known flag id key p entry e n = rw (confirm_path, e, n) refl

-- If a peer is known with a key, no path of it is confirmed yet and no key was given for it
-- beforehand, any key on the beacon path is taken as a confirmation; the stored key on the other
-- path then makes the peer confirmed on both.
pub confirm_path-two_keys :
    (id key : Text) (p : PeerManager) (entry : PeerEntry)
    → lookup id p.peers ≡ some entry
    → lookup id p.pre_provisioned_keys ≡ none
    → entry.confirmed_paths ≡ 0
    → is_empty entry.public_key_pem ≡ false
    → let (q, first) = confirm_path path_beacon id key p in
      let (_, second) = confirm_path path_announce id entry.public_key_pem q in
      (first.key_mismatch ≡ false) × (second.dual_confirmed ≡ true) × (second.key_mismatch ≡ false)
confirm_path-two_keys id key p entry e n z h =
    let noted : PeerEntry = record entry { confirmed_paths = path_beacon } in
    let q : PeerManager = record p { peers = insert id noted p.peers } in
    let same : text_eq id id ≡ true = text_eq_refl id in
    let found : lookup id q.peers ≡ some noted = lookup-insert id id noted p.peers ∙ rw same refl in
    rw
      (
        confirm_path-known path_beacon id key p entry e n,
        first_entry key entry z h,
        confirm_path-known path_announce id entry.public_key_pem q noted found n,
        second_entry entry h,
      )
      (refl, refl, refl)
