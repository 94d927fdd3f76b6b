-- ===== src/Peers/Keys.antt =====
-- The keys that consensus/PeerManager.cpp keeps of its peers, over histories of calls.
use neuro_mesh.Prelude.{
  ℕ, ◌≡◌, refl, not, Option, none, some, List, [], ◌∷◌, Text, text_key, is_empty, bit_or, arith,
  ◌⊎◌, Bool-cases, Option-cases, inl, inr,
}
use neuro_mesh.Prelude.Dict.{
  lookup, has_key, AllValues, insert-AllValues, erase-AllValues, lookup-AllValues,
}
use neuro_mesh.Prelude.Int.{ℤ}
use neuro_mesh.Pbft.Types.{Platform}
use neuro_mesh.Peers.Calls.{Call, perform, perform_all}
use neuro_mesh.Peers.Rates.{check_rate_limit, reset_rate_limit}
use neuro_mesh.Peers.Registry.{
  add_peer, new_peer, adopt_key, update_peer_heartbeat, remove_peer, set_peer_tls_fd, get_peer_key,
  is_peer_verified, set_cooldown, set_own_telemetry, set_peer_telemetry, add_known_ip,
}
use neuro_mesh.Peers.Trust.{
  unpin_peer_key, pin_tls_fingerprint, pre_provision_peer_key, confirm_path, confirm_entry,
  note_path,
}
use neuro_mesh.Peers.Types.{PeerManager, PeerEntry, new_peer_manager}

pub check_rate_limit-peers :
    (env : Platform) (now : ℕ) (ip : Text) (p : PeerManager)
    → (check_rate_limit env now ip p).0.peers ≡ p.peers
unfolding check_rate_limit
check_rate_limit-peers env now ip p = ground arith

-- A peer is marked as verified just when its key is known.
abbrev IsMarked : Text → PeerEntry → Type 0
IsMarked id entry = entry.verified ≡ not (is_empty entry.public_key_pem)

AllMarked : PeerManager → Type 0
AllMarked p = AllValues IsMarked p.peers

adopt_key-IsMarked :
    (key id : Text) (entry : PeerEntry) → IsMarked id entry → IsMarked id (adopt_key key entry)
unfolding adopt_key
adopt_key-IsMarked key id entry m = ground arith

pub confirm_entry_cases :
    (flag : ℕ) (key : Text) (known : Option Text) (entry : PeerEntry)
    → ((confirm_entry flag key known entry).0 ≡ entry)
      ⊎ ((confirm_entry flag key known entry).0 ≡ note_path flag key entry)
unfolding confirm_entry
confirm_entry_cases flag key none entry = ground arith
confirm_entry_cases flag key (some expected) entry = ground arith

note_path-IsMarked :
    (flag : ℕ) (key id : Text) (entry : PeerEntry)
    → IsMarked id entry
    → IsMarked id (note_path flag key entry)
unfolding note_path
note_path-IsMarked flag key id entry m =
    adopt_key-IsMarked key id (record entry { confirmed_paths = bit_or entry.confirmed_paths flag })
      m

confirm_entry-IsMarked :
    (flag : ℕ) (key id : Text) (known : Option Text) (entry : PeerEntry)
    → IsMarked id entry
    → IsMarked id (confirm_entry flag key known entry).0
confirm_entry-IsMarked flag key id known entry m = elim (confirm_entry_cases flag key known entry) [
  | inl same ↦ rw same m
  | inr noted ↦ rw noted (note_path-IsMarked flag key id entry m)
]

add_peer-AllMarked :
    (now : ℕ) (id ip : Text) (tcp tls : ℤ) (key : Text) (p : PeerManager)
    → AllMarked p
    → AllMarked (add_peer now id ip tcp tls key p).0
unfolding add_peer new_peer AllMarked
add_peer-AllMarked now id ip tcp tls key p a = elim (Bool-cases (has_key id p.peers)) [
  | inl known ↦ rw known a
  | inr new ↦ rw new (insert-AllValues IsMarked id _ p.peers refl a)
]

-- A call that looks up a peer and writes a changed entry back.
module _ (id : Text) (p : PeerManager) (a : AllMarked p) where
  IsMarked-at : (entry : PeerEntry) → lookup id p.peers ≡ some entry → IsMarked id entry
  unfolding AllMarked
  IsMarked-at entry e = lookup-AllValues IsMarked id entry p.peers a e

  heartbeat-AllMarked :
      (now : ℕ) (ip : Text) (tcp tls : ℤ) (key : Text)
      → AllMarked (update_peer_heartbeat now id ip tcp tls key p).0
  unfolding update_peer_heartbeat AllMarked
  heartbeat-AllMarked now ip tcp tls key = elim (Option-cases (lookup id p.peers)) [
    | inl missing ↦ rw (update_peer_heartbeat, missing) a
    | inr (entry, e) ↦
        let seen : PeerEntry = record entry {
          last_heartbeat = now;
          ip = ip;
          tcp_port = tcp;
          tls_port = tls;
        } in
        rw (update_peer_heartbeat, e)
          (insert-AllValues IsMarked id (adopt_key key seen) p.peers
            (adopt_key-IsMarked key id seen (IsMarked-at entry e)) a)
  ]

  set_fd-AllMarked : (fd : ℤ) → AllMarked (set_peer_tls_fd id fd p)
  unfolding set_peer_tls_fd AllMarked
  set_fd-AllMarked fd = elim (Option-cases (lookup id p.peers)) [
    | inl missing ↦ rw (set_peer_tls_fd, missing) a
    | inr (entry, e) ↦
        rw (set_peer_tls_fd, e)
          (insert-AllValues IsMarked id (record entry { tls_fd = fd }) p.peers (IsMarked-at entry e)
            a)
  ]

  unpin-AllMarked : AllMarked (unpin_peer_key id p)
  unfolding unpin_peer_key AllMarked
  unpin-AllMarked = elim (Option-cases (lookup id p.peers)) [
    | inl missing ↦ rw (unpin_peer_key, missing) a
    | inr (entry, e) ↦ rw (unpin_peer_key, e) (insert-AllValues IsMarked id _ p.peers refl a)
  ]

  confirm-AllMarked : (flag : ℕ) (key : Text) → AllMarked (confirm_path flag id key p).0
  unfolding confirm_path AllMarked
  confirm-AllMarked flag key = elim (Option-cases (lookup id p.peers)) [
    | inl missing ↦ rw (confirm_path, missing) a
    | inr (entry, e) ↦
        rw (confirm_path, e)
          (insert-AllValues IsMarked id _ p.peers
            (confirm_entry-IsMarked flag key id (lookup id p.pre_provisioned_keys) entry
              (IsMarked-at entry e))
            a)
  ]

perform-AllMarked :
    (env : Platform) (call : Call) (p : PeerManager) → AllMarked p → AllMarked (perform env call p)
unfolding perform AllMarked remove_peer pin_tls_fingerprint pre_provision_peer_key reset_rate_limit
    set_cooldown set_own_telemetry set_peer_telemetry add_known_ip
perform-AllMarked env (Call.add now id ip tcp tls key) p a =
    add_peer-AllMarked now id ip tcp tls key p a
perform-AllMarked env (Call.heartbeat now id ip tcp tls key) p a =
    heartbeat-AllMarked id p a now ip tcp tls key
perform-AllMarked env (Call.remove id) p a = erase-AllValues IsMarked id p.peers a
perform-AllMarked env (Call.set_tls_fd id fd) p a = set_fd-AllMarked id p a fd
perform-AllMarked env (Call.unpin id) p a = unpin-AllMarked id p a
perform-AllMarked env (Call.confirm flag id key) p a = confirm-AllMarked id p a flag key
perform-AllMarked env (Call.rate now ip) p a = rw (check_rate_limit-peers env now ip p) a
perform-AllMarked env _ p a = a

perform_all-AllMarked :
    (env : Platform) (calls : List Call) (p : PeerManager)
    → AllMarked p
    → AllMarked (perform_all env calls p)
unfolding perform_all
perform_all-AllMarked env [] p a = a
perform_all-AllMarked env (call ∷ calls) p a =
    perform_all-AllMarked env calls (perform env call p) (perform-AllMarked env call p a)

-- After any history of calls a peer counts as verified just when the manager has a key for it.
pub is_peer_verified-get_peer_key :
    (env : Platform) (calls : List Call) (id : Text)
    → let p = perform_all env calls new_peer_manager in
      is_peer_verified id p ≡ not (is_empty (get_peer_key id p))
unfolding is_peer_verified get_peer_key AllMarked
is_peer_verified-get_peer_key env calls id =
    let p : PeerManager = perform_all env calls new_peer_manager in
    let marked : AllMarked p = perform_all-AllMarked env calls new_peer_manager tt in
    elim (Option-cases (lookup id p.peers)) [
      | inl missing ↦ rw (is_peer_verified, get_peer_key, missing) refl
      | inr (entry, e) ↦ rw (is_peer_verified, get_peer_key, e) (IsMarked-at id p marked entry e)
    ]
