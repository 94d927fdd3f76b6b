-- ===== src/Enforcer/Backends.antt =====
-- The backends of enforcer/PolicyEnforcer.cpp: the map of the kernel program, nftables and iptables,
-- their probe, and the order in which an address is dropped.
pub mod Order
use neuro_mesh.Prelude.{
  ℕ, Bool, true, false, not, ◌&&◌, ◌||◌, Option, none, some, List, [], ◌∷◌, ◌++◌, Text, codes,
  is_empty, if◌then◌else◌,
}
use neuro_mesh.Enforcer.Types.{Command, Trace, Host, EnforcementBackend, PolicyEnforcer, execute}
use neuro_mesh.Enforcer.Addresses.{is_valid_ipv4, is_valid_ip, is_loopback, is_loopback_ipv6}
use neuro_mesh.Enforcer.Nftables.{ensure_nftables_table, apply_nftables_drop}

-- The path of the map of a node.
unfoldable pub map_path : Text → Text
map_path node_id =
    codes "/sys/fs/bpf/neuro_mesh"
    ++ ((if is_empty node_id then [] else b'_' ∷ node_id) ++ codes "/xdp_blacklist")

abbrev iptables : Text
iptables = codes "/usr/sbin/iptables"

abbrev pub iptables_rule : Text → Text → Command
iptables_rule action ip =
    Command.run
      (iptables ∷ action ∷ codes "INPUT" ∷ codes "-s" ∷ ip ∷ codes "-j" ∷ codes "DROP" ∷ [])

module _ (h : Host) where
  unfoldable pub ensure_ebpf_map : Trace → Trace × Bool
  unfolding execute
  ensure_ebpf_map trace =
      let (opened, found) =
        execute h (Command.open_map (codes "/sys/fs/bpf/neuro_mesh/xdp_blacklist")) trace in
      let (mounted, _) =
        execute h
          (Command.run (
            codes "/usr/bin/mount"
            ∷ codes "-t"
            ∷ codes "bpf"
            ∷ codes "bpf"
            ∷ codes "/sys/fs/bpf"
            ∷ []))
          opened in
      let (made, _) = execute h (Command.make_directory (codes "/sys/fs/bpf/neuro_mesh")) mounted in
      if found then (opened, true) else (made, false)

  -- The probe behind `available_backends`.
  unfoldable pub available_backends : Trace → Trace × EnforcementBackend
  unfolding ensure_ebpf_map ensure_nftables_table execute
  available_backends trace =
      let (after_ebpf, ebpf) = ensure_ebpf_map trace in
      let (after_nftables, nftables) = ensure_nftables_table h after_ebpf in
      let (after_iptables, iptables) =
        execute h (Command.run (iptables ∷ codes "-V" ∷ [])) after_nftables in
      (after_iptables, record { ebpf = ebpf; nftables = nftables; iptables = iptables })

  -- The constructor.
  unfoldable pub new_enforcer : Trace → Trace × PolicyEnforcer
  unfolding available_backends
  new_enforcer trace =
      let (probed, backends) = available_backends trace in
      (
        probed,
        record {
          node_id = [];
          isolated_nodes = [];
          safe_list = [];
          suspended_pids = [];
          suspended_pidfds = [];
          peer_ip_map = [];
          peer_port_map = [];
          last_enforce_time = 0;
          backends = backends;
        },
      )

  -- `apply_ebpf_drop` and `remove_ebpf_drop`, which differ in the last call.
  unfoldable pub change_ebpf_map :
      (Text → ℕ → Command) → PolicyEnforcer → Text → Trace → Trace × Bool
  unfolding is_valid_ipv4 map_path execute
  change_ebpf_map change p ip trace =
      let path : Text = map_path p.node_id in
      let (opened, found) = execute h (Command.open_map path) trace in
      if not (is_valid_ipv4 h ip)
      then (trace, false)
      else if not found
      then (opened, false)
      else elim (h.inet_pton4 ip) [
        | none ↦ (opened, false)
        | some key ↦ execute h (change path key) opened
      ]

  unfoldable pub apply_ebpf_drop : PolicyEnforcer → Text → Trace → Trace × Bool
  unfolding change_ebpf_map
  apply_ebpf_drop = change_ebpf_map Command.update_map

  unfoldable pub remove_ebpf_drop : PolicyEnforcer → Text → Trace → Trace × Bool
  unfolding change_ebpf_map
  remove_ebpf_drop = change_ebpf_map Command.delete_from_map

  unfoldable pub apply_iptables_drop : Text → Trace → Trace × Bool
  unfolding execute
  apply_iptables_drop ip = execute h (iptables_rule (codes "-A") ip)

  unfoldable pub remove_iptables_drop : Text → Trace → Trace × Bool
  unfolding execute
  remove_iptables_drop ip = execute h (iptables_rule (codes "-D") ip)

  -- A backend that was probed is tried; another one does nothing.
  abbrev pub try_if : Bool → (Trace → Trace × Bool) → Trace → Trace × Bool
  try_if available backend trace = if available then backend trace else (trace, false)

  -- The backends in their order, up to the first that succeeds.
  unfoldable pub drop_address : PolicyEnforcer → Text → Trace → Trace × Bool
  unfolding apply_ebpf_drop apply_nftables_drop apply_iptables_drop
  drop_address p ip trace =
      let (first, by_ebpf) = apply_ebpf_drop p ip trace in
      let (second, by_nftables) = try_if p.backends.nftables (apply_nftables_drop h ip) first in
      let (third, by_iptables) = try_if p.backends.iptables (apply_iptables_drop ip) second in
      if by_ebpf
      then (first, true)
      else if by_nftables
      then (second, true)
      else (third, by_iptables)

  unfoldable pub block_ip_address : PolicyEnforcer → Text → Trace → Trace × Bool
  unfolding is_valid_ip is_loopback is_loopback_ipv6 drop_address
  block_ip_address p ip trace =
      if not (is_valid_ip h ip)
      then (trace, false)
      else if is_loopback h ip || is_loopback_ipv6 h ip
      then (trace, false)
      else drop_address p ip trace
