-- ===== src/Peers/Bounds/Histories.antt =====
-- The rate table of consensus/PeerManager.cpp over histories of calls.
use neuro_mesh.Prelude.{ℕ, ◌≤◌, ◌≡◌, List, [], ◌∷◌, Text, text_key, length, arith}
use neuro_mesh.Pbft.Types.{Platform}
use neuro_mesh.Prelude.Int.{ℤ}
use neuro_mesh.Peers.Bounds.{IsBounded, check_rate_limit-IsBounded, reset-IsBounded}
use neuro_mesh.Peers.Calls.{Call, perform, perform_all}
use neuro_mesh.Peers.Registry.{
  add_peer, update_peer_heartbeat, remove_peer, set_peer_tls_fd, set_cooldown, set_own_telemetry,
  set_peer_telemetry, add_known_ip,
}
use neuro_mesh.Peers.Trust.{
  unpin_peer_key, pin_tls_fingerprint, pre_provision_peer_key, confirm_path,
}
use neuro_mesh.Peers.Types.{PeerManager, new_peer_manager, rate_limit_map_cap}

-- The other calls that look something up leave the table as it is.
module _ (p : PeerManager) where
  add-rates :
      (now : ℕ) (id ip : Text) (tcp tls : ℤ) (key : Text)
      → (add_peer now id ip tcp tls key p).0.rate_limits ≡ p.rate_limits
  unfolding add_peer
  add-rates now id ip tcp tls key = ground arith

  heartbeat-rates :
      (now : ℕ) (id ip : Text) (tcp tls : ℤ) (key : Text)
      → (update_peer_heartbeat now id ip tcp tls key p).0.rate_limits ≡ p.rate_limits
  unfolding update_peer_heartbeat
  heartbeat-rates now id ip tcp tls key = ground arith

  set_fd-rates : (id : Text) (fd : ℤ) → (set_peer_tls_fd id fd p).rate_limits ≡ p.rate_limits
  unfolding set_peer_tls_fd
  set_fd-rates id fd = ground arith

  confirm-rates :
      (flag : ℕ) (id key : Text) → (confirm_path flag id key p).0.rate_limits ≡ p.rate_limits
  unfolding confirm_path
  confirm-rates flag id key = ground arith

perform-IsBounded :
    (env : Platform) (call : Call) (p : PeerManager)
    → IsBounded p.rate_limits
    → IsBounded (perform env call p).rate_limits
unfolding perform remove_peer unpin_peer_key pin_tls_fingerprint pre_provision_peer_key set_cooldown
    set_own_telemetry set_peer_telemetry add_known_ip
perform-IsBounded env (Call.rate now ip) p b = check_rate_limit-IsBounded env now ip p b
perform-IsBounded env (Call.reset_rate ip) p b = reset-IsBounded ip p b
perform-IsBounded env (Call.add now id ip tcp tls key) p b =
    rw (add-rates p now id ip tcp tls key) b
perform-IsBounded env (Call.heartbeat now id ip tcp tls key) p b =
    rw (heartbeat-rates p now id ip tcp tls key) b
perform-IsBounded env (Call.set_tls_fd id fd) p b = rw (set_fd-rates p id fd) b
perform-IsBounded env (Call.confirm flag id key) p b = rw (confirm-rates p flag id key) b
perform-IsBounded env _ p b = b

perform_all-IsBounded :
    (env : Platform) (calls : List Call) (p : PeerManager)
    → IsBounded p.rate_limits
    → IsBounded (perform_all env calls p).rate_limits
unfolding perform_all
perform_all-IsBounded env [] p b = b
perform_all-IsBounded env (call ∷ calls) p b =
    perform_all-IsBounded env calls (perform env call p) (perform-IsBounded env call p b)

-- After any history of calls the rate table has at most 4096 addresses, however many sent messages
-- and in whatever order the table is walked.
pub length-perform_all-rate_limits :
    (env : Platform) (calls : List Call)
    → length (perform_all env calls new_peer_manager).rate_limits ≤ rate_limit_map_cap
length-perform_all-rate_limits env calls =
    (perform_all-IsBounded env calls new_peer_manager (tt, omega arith)).1
