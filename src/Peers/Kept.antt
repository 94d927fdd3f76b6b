-- ===== src/Peers/Kept.antt =====
-- The stored key of a peer in consensus/PeerManager.cpp, over histories of calls.
use neuro_mesh.Prelude.{
  ℕ, ◌≡◌, refl, ap, sym, ◌∙◌, true, false, Option, none, some, List, [], ◌∷◌, Text, text_key,
  text_eq, text_eq_iff, is_empty, if◌then◌else◌, bit_or, All, arith, Bool-cases, Option-cases, inl,
  inr,
}
use neuro_mesh.Prelude.Dict.{Dict, lookup, has_key, insert, erase, lookup-insert, lookup-erase}
use neuro_mesh.Prelude.Int.{ℤ}
use neuro_mesh.Pbft.Types.{Platform}
use neuro_mesh.Peers.Calls.{Call, perform, perform_all}
use neuro_mesh.Peers.Keys.{check_rate_limit-peers, confirm_entry_cases}
use neuro_mesh.Peers.Rates.{reset_rate_limit}
use neuro_mesh.Peers.Registry.{
  add_peer, adopt_key, update_peer_heartbeat, remove_peer, set_peer_tls_fd, get_peer_key,
  set_cooldown, set_own_telemetry, set_peer_telemetry, add_known_ip,
}
use neuro_mesh.Peers.Trust.{
  unpin_peer_key, pin_tls_fingerprint, pre_provision_peer_key, confirm_path, confirm_entry,
  note_path,
}
use neuro_mesh.Peers.Types.{PeerManager, PeerEntry}

-- The call neither removes the peer nor unpins its key.
abbrev pub Spares : Text → Call → Type 0
Spares x (Call.remove id) = text_eq x id ≡ false
Spares x (Call.unpin id) = text_eq x id ≡ false
Spares x _ = Unit

-- The key that a dictionary of peers has for `x`.
key_in : Text → Dict Text PeerEntry → Text
key_in x peers = elim (lookup x peers) [ none ↦ [] | some entry ↦ entry.public_key_pem ]

key_in-insert :
    (x id : Text) (entry : PeerEntry) (peers : Dict Text PeerEntry)
    → key_in x (insert id entry peers)
      ≡ (if text_eq x id then entry.public_key_pem else key_in x peers)
unfolding key_in
key_in-insert x id entry peers = ground (arith, lookup-insert x id entry peers)

key_in-erase :
    (x id : Text) (peers : Dict Text PeerEntry)
    → text_eq x id ≡ false
    → key_in x (erase id peers) ≡ key_in x peers
unfolding key_in
key_in-erase x id peers other = ground (arith, lookup-erase x id peers)

key_in-some :
    (x : Text) (entry : PeerEntry) (peers : Dict Text PeerEntry)
    → lookup x peers ≡ some entry
    → key_in x peers ≡ entry.public_key_pem
unfolding key_in
key_in-some x entry peers e = rw (key_in, e) refl

key_in-none : (x : Text) (peers : Dict Text PeerEntry) → lookup x peers ≡ none → key_in x peers ≡ []
unfolding key_in
key_in-none x peers e = rw (key_in, e) refl

absent : (x : Text) (peers : Dict Text PeerEntry) → has_key x peers ≡ false → lookup x peers ≡ none
unfolding has_key
absent x peers e = ground arith

adopt_key-kept :
    (key : Text) (entry : PeerEntry)
    → is_empty entry.public_key_pem ≡ false
    → (adopt_key key entry).public_key_pem ≡ entry.public_key_pem
unfolding adopt_key
adopt_key-kept key entry h = ground arith

confirm_entry-kept :
    (flag : ℕ) (key : Text) (known : Option Text) (entry : PeerEntry)
    → is_empty entry.public_key_pem ≡ false
    → (confirm_entry flag key known entry).0.public_key_pem ≡ entry.public_key_pem
unfolding note_path
confirm_entry-kept flag key known entry h = elim (confirm_entry_cases flag key known entry) [
  | inl same ↦ rw same refl
  | inr noted ↦
      rw noted (
        adopt_key-kept key (record entry { confirmed_paths = bit_or entry.confirmed_paths flag }) h)
]

-- Writing back an entry of `id` with the same key, when there is one, keeps the key of `x`.
module _ (x : Text) (p : PeerManager) (h : is_empty (key_in x p.peers) ≡ false) where
  write_back :
      (id : Text) (entry changed : PeerEntry)
      → lookup id p.peers ≡ some entry
      → (is_empty entry.public_key_pem ≡ false → changed.public_key_pem ≡ entry.public_key_pem)
      → key_in x (insert id changed p.peers) ≡ key_in x p.peers
  write_back id entry changed e same = elim (Bool-cases (text_eq x id)) [
    | inl me ↦
        let eq : x ≡ id = (text_eq_iff x id).0 me in
        let here : key_in x p.peers ≡ entry.public_key_pem =
          key_in-some x entry p.peers (rw eq e) in
        key_in-insert x id changed p.peers ∙ rw me (same (rw here at h) ∙ sym here)
    | inr other ↦ key_in-insert x id changed p.peers ∙ rw other refl
  ]

  add-kept :
      (now : ℕ) (id ip : Text) (tcp tls : ℤ) (key : Text)
      → key_in x (add_peer now id ip tcp tls key p).0.peers ≡ key_in x p.peers
  unfolding add_peer
  add-kept now id ip tcp tls key = elim (Bool-cases (has_key id p.peers)) [
    | inl known ↦ rw known refl
    | inr new ↦ elim (Bool-cases (text_eq x id)) [
      | inl me ↦
          let eq : x ≡ id = (text_eq_iff x id).0 me in
          let no_key : is_empty (key_in x p.peers) ≡ true =
            rw (key_in-none x p.peers (rw eq (absent id p.peers new))) refl in
          absurd (ground arith)
      | inr other ↦ rw new (key_in-insert x id _ p.peers ∙ rw other refl)
    ]
  ]

  heartbeat-kept :
      (now : ℕ) (id ip : Text) (tcp tls : ℤ) (key : Text)
      → key_in x (update_peer_heartbeat now id ip tcp tls key p).0.peers ≡ key_in x p.peers
  unfolding update_peer_heartbeat
  heartbeat-kept now id ip tcp tls key = elim (Option-cases (lookup id p.peers)) [
    | inl missing ↦ rw (update_peer_heartbeat, missing) refl
    | inr (entry, e) ↦
        let seen : PeerEntry = record entry {
          last_heartbeat = now;
          ip = ip;
          tcp_port = tcp;
          tls_port = tls;
        } in
        rw (update_peer_heartbeat, e)
          (write_back id entry (adopt_key key seen) e (adopt_key-kept key seen))
  ]

  set_fd-kept : (id : Text) (fd : ℤ) → key_in x (set_peer_tls_fd id fd p).peers ≡ key_in x p.peers
  unfolding set_peer_tls_fd
  set_fd-kept id fd = elim (Option-cases (lookup id p.peers)) [
    | inl missing ↦ rw (set_peer_tls_fd, missing) refl
    | inr (entry, e) ↦
        rw (set_peer_tls_fd, e) (write_back id entry (record entry { tls_fd = fd }) e (λ k. refl))
  ]

  confirm-kept :
      (flag : ℕ) (id key : Text) → key_in x (confirm_path flag id key p).0.peers ≡ key_in x p.peers
  unfolding confirm_path
  confirm-kept flag id key = elim (Option-cases (lookup id p.peers)) [
    | inl missing ↦ rw (confirm_path, missing) refl
    | inr (entry, e) ↦
        let known = lookup id p.pre_provisioned_keys in
        rw (confirm_path, e)
          (write_back id entry (confirm_entry flag key known entry).0 e
            (confirm_entry-kept flag key known entry))
  ]

  unpin-kept :
      (id : Text) → text_eq x id ≡ false → key_in x (unpin_peer_key id p).peers ≡ key_in x p.peers
  unfolding unpin_peer_key
  unpin-kept id other = elim (Option-cases (lookup id p.peers)) [
    | inl missing ↦ rw (unpin_peer_key, missing) refl
    | inr (entry, e) ↦ rw (unpin_peer_key, e) (key_in-insert x id _ p.peers ∙ rw other refl)
  ]

  perform-kept :
      (env : Platform) (call : Call)
      → Spares x call
      → key_in x (perform env call p).peers ≡ key_in x p.peers
  unfolding perform remove_peer pin_tls_fingerprint pre_provision_peer_key reset_rate_limit
      set_cooldown set_own_telemetry set_peer_telemetry add_known_ip
  perform-kept env (Call.add now id ip tcp tls key) s = add-kept now id ip tcp tls key
  perform-kept env (Call.heartbeat now id ip tcp tls key) s = heartbeat-kept now id ip tcp tls key
  perform-kept env (Call.remove id) s = key_in-erase x id p.peers s
  perform-kept env (Call.set_tls_fd id fd) s = set_fd-kept id fd
  perform-kept env (Call.unpin id) s = unpin-kept id s
  perform-kept env (Call.confirm flag id key) s = confirm-kept flag id key
  perform-kept env (Call.rate now ip) s = ap (key_in x) (check_rate_limit-peers env now ip p)
  perform-kept env _ s = refl

perform_all-kept :
    (x : Text) (env : Platform) (calls : List Call) (p : PeerManager)
    → is_empty (key_in x p.peers) ≡ false
    → All (Spares x) calls
    → key_in x (perform_all env calls p).peers ≡ key_in x p.peers
unfolding perform_all
perform_all-kept x env [] p h s = refl
perform_all-kept x env (call ∷ calls) p h s =
    let step : key_in x (perform env call p).peers ≡ key_in x p.peers =
      perform-kept x p h env call s.0 in
    perform_all-kept x env calls (perform env call p) (rw step h) s.1 ∙ step

-- Once the manager has a key for a peer, no history of calls changes it that neither removes the
-- peer nor unpins its key: neither a heartbeat nor a discovery path replaces the first key.
pub get_peer_key-perform_all :
    (x : Text) (env : Platform) (calls : List Call) (p : PeerManager)
    → is_empty (get_peer_key x p) ≡ false
    → All (Spares x) calls
    → get_peer_key x (perform_all env calls p) ≡ get_peer_key x p
unfolding get_peer_key key_in
get_peer_key-perform_all x env calls p h s = perform_all-kept x env calls p h s
