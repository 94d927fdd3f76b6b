-- ===== src/Peers/Calls.antt =====
-- Histories of calls of the peer manager in consensus/PeerManager.cpp.
use neuro_mesh.Prelude.{ℕ, List, [], ◌∷◌, Text, text_key}
use neuro_mesh.Prelude.Int.{ℤ}
use neuro_mesh.Pbft.Types.{Platform}
use neuro_mesh.Peers.Rates.{check_rate_limit, reset_rate_limit}
use neuro_mesh.Peers.Registry.{
  add_peer, update_peer_heartbeat, remove_peer, set_peer_tls_fd, set_cooldown, set_own_telemetry,
  set_peer_telemetry, add_known_ip,
}
use neuro_mesh.Peers.Trust.{
  unpin_peer_key, pin_tls_fingerprint, pre_provision_peer_key, confirm_path,
}
use neuro_mesh.Peers.Types.{PeerManager}

-- The calls that change the state.
pub data Call : Type 0 where
  add : ℕ → Text → Text → ℤ → ℤ → Text → Call
  heartbeat : ℕ → Text → Text → ℤ → ℤ → Text → Call
  remove : Text → Call
  set_tls_fd : Text → ℤ → Call
  unpin : Text → Call
  pin : ℕ → Text → Text → Call
  provision : Text → Text → Call
  confirm : ℕ → Text → Text → Call
  rate : ℕ → Text → Call
  reset_rate : Text → Call
  cooldown : ℕ → Text → Call
  own_telemetry : Text → Call
  peer_telemetry : Text → Text → Call
  known_ip : Text → Call

unfoldable pub perform : Platform → Call → PeerManager → PeerManager
unfolding add_peer update_peer_heartbeat remove_peer set_peer_tls_fd unpin_peer_key
    pin_tls_fingerprint pre_provision_peer_key confirm_path check_rate_limit reset_rate_limit
    set_cooldown set_own_telemetry set_peer_telemetry add_known_ip
perform env (Call.add now id ip tcp tls key) p = (add_peer now id ip tcp tls key p).0
perform env (Call.heartbeat now id ip tcp tls key) p =
    (update_peer_heartbeat now id ip tcp tls key p).0
perform env (Call.remove id) p = remove_peer id p
perform env (Call.set_tls_fd id fd) p = set_peer_tls_fd id fd p
perform env (Call.unpin id) p = unpin_peer_key id p
perform env (Call.pin now id fingerprint) p = pin_tls_fingerprint now id fingerprint p
perform env (Call.provision id key) p = pre_provision_peer_key id key p
perform env (Call.confirm flag id key) p = (confirm_path flag id key p).0
perform env (Call.rate now ip) p = (check_rate_limit env now ip p).0
perform env (Call.reset_rate ip) p = reset_rate_limit ip p
perform env (Call.cooldown now id) p = set_cooldown now id p
perform env (Call.own_telemetry json) p = set_own_telemetry json p
perform env (Call.peer_telemetry id json) p = set_peer_telemetry id json p
perform env (Call.known_ip ip) p = add_known_ip ip p

unfoldable pub perform_all : Platform → List Call → PeerManager → PeerManager
unfolding perform
perform_all env [] p = p
perform_all env (call ∷ calls) p = perform_all env calls (perform env call p)
