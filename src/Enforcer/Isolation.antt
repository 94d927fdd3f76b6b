-- ===== src/Enforcer/Isolation.antt =====
-- Isolation of a node and its release: `isolate_target` and `release_target` of
-- enforcer/PolicyEnforcer.cpp.
pub mod Outcome
pub mod Refinement
pub mod Commands
use neuro_mesh.Prelude.{
  ℕ, Bool, true, false, not, ◌&&◌, ◌||◌, List, [], ◌∷◌, Text, text_key, is_empty, if◌then◌else◌,
  ltb, ◌==◌,
}
use neuro_mesh.Prelude.Dict.{contains, add, remove}
use neuro_mesh.Enforcer.Types.{Trace, Host, PolicyEnforcer, enforce_cooldown_sec, elapsed_sec}
use neuro_mesh.Enforcer.Addresses.{
  is_safe, is_loopback, is_loopback_ipv6, resolve_target, resolve_port,
}
use neuro_mesh.Enforcer.Nftables.{
  apply_nftables_port_drop, remove_nftables_port_drop, remove_nftables_drop,
}
use neuro_mesh.Enforcer.Backends.{drop_address, remove_ebpf_drop, remove_iptables_drop, try_if}

abbrev pub no_nodes : List Text → Bool
no_nodes [] = true
no_nodes (node ∷ nodes) = false

module _ (h : Host) where
  -- The target and the time are recorded after a success.
  unfoldable pub record_isolation :
      PolicyEnforcer → Text → Trace × Bool → Trace × PolicyEnforcer × Bool
  unfolding add
  record_isolation p target (trace, success) = (
    trace,
    if success
        then record p {
          isolated_nodes = add target p.isolated_nodes;
          last_enforce_time = h.now trace;
        }
        else p,
    success,
  )

  abbrev pub is_local : Text → Bool
  is_local ip = is_loopback h ip || is_loopback_ipv6 h ip

  -- The isolation of a target whose address is known, in the phases after the lock.
  unfoldable pub isolate_address :
      PolicyEnforcer → Text → Text → Trace → Trace × PolicyEnforcer × Bool
  unfolding record_isolation is_loopback is_loopback_ipv6 resolve_port apply_nftables_port_drop
      drop_address
  isolate_address p target resolved_ip trace =
      let target_port = resolve_port p target in
      if is_local resolved_ip
      then (if target_port == 0
          then (trace, p, false)
          else record_isolation p target (
              try_if h p.backends.nftables (apply_nftables_port_drop h resolved_ip target_port)
                trace))
      else record_isolation p target (drop_address h p resolved_ip trace)

  -- Too soon after the last isolation.
  unfoldable pub on_cooldown : PolicyEnforcer → Trace → Bool
  on_cooldown p trace =
      ltb (elapsed_sec (h.now trace) p.last_enforce_time) enforce_cooldown_sec
      && not (no_nodes p.isolated_nodes)

  unfoldable pub isolate_target : PolicyEnforcer → Text → Trace → Trace × PolicyEnforcer × Bool
  unfolding on_cooldown contains is_safe resolve_target isolate_address
  isolate_target p target trace =
      let resolved_ip = resolve_target h p target in
      if on_cooldown p trace
      then (trace, p, false)
      else if contains target p.isolated_nodes
      then (trace, record p { last_enforce_time = h.now trace }, true)
      else if is_safe p target
      then (trace, p, false)
      else if is_empty resolved_ip
      then (trace, p, false)
      else isolate_address p target resolved_ip trace

  -- The commands that undo the drops of an address.
  unfoldable pub undo_drops : PolicyEnforcer → Text → Text → Trace → Trace
  unfolding is_loopback is_loopback_ipv6 resolve_port remove_nftables_port_drop remove_ebpf_drop
      remove_nftables_drop remove_iptables_drop
  undo_drops p target resolved_ip trace =
      let target_port = resolve_port p target in
      let without_map = (remove_ebpf_drop h p resolved_ip trace).0 in
      let without_rules = (remove_nftables_drop h resolved_ip without_map).0 in
      if is_local resolved_ip
      then (if ltb 0 target_port
          then (remove_nftables_port_drop h resolved_ip target_port trace).0
          else trace)
      else (remove_iptables_drop h resolved_ip without_rules).0

  unfoldable pub release_target : PolicyEnforcer → Text → Trace → Trace × PolicyEnforcer
  unfolding contains remove resolve_target undo_drops
  release_target p target trace =
      let released = record p { isolated_nodes = remove target p.isolated_nodes } in
      let resolved_ip = resolve_target h p target in
      if not (contains target p.isolated_nodes)
      then (trace, p)
      else if is_empty resolved_ip
      then (trace, released)
      else (undo_drops p target resolved_ip trace, released)
