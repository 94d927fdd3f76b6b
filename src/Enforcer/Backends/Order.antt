-- ===== src/Enforcer/Backends/Order.antt =====
-- What the backends of enforcer/PolicyEnforcer.cpp do to drop an address, and in which order.
use neuro_mesh.Prelude.{
  ℕ, ◌≡◌, Bool, true, false, not, ◌||◌, some, ◌∷◌, Text, codes, arith, if_intro, if_elim,
  Option-cases, inl, inr,
}
use neuro_mesh.Enforcer.Types.{Command, Trace, Host, PolicyEnforcer, execute}
use neuro_mesh.Enforcer.Addresses.{is_valid_ipv4, is_valid_ip, is_loopback, is_loopback_ipv6}
use neuro_mesh.Enforcer.Nftables.{add_rule, drop_all, on_loopback, apply_nftables_drop}
use neuro_mesh.Enforcer.Backends.{
  map_path, iptables_rule, change_ebpf_map, apply_ebpf_drop, apply_iptables_drop, try_if,
  drop_address, block_ip_address,
}

-- A later trace: commands that satisfy `P`, in front of an earlier one.
pub data Extends (P : Command → Type 0) (earlier : Trace) : Trace → Type 0 where
  same : Extends P earlier earlier
  more :
      (command : Command) (trace : Trace)
      → P command
      → Extends P earlier trace
      → Extends P earlier (command ∷ trace)

-- The commands that drop all packets from an address.
pub data IsBlock (h : Host) (p : PolicyEnforcer) (ip : Text) : Command → Type 0 where
  entry :
      (key : ℕ)
      → h.inet_pton4 ip ≡ some key
      → IsBlock h p ip (Command.update_map (map_path p.node_id) key)
  rule : IsBlock h p ip (add_rule (drop_all ip))
  chain_rule : IsBlock h p ip (iptables_rule (codes "-A") ip)

-- The commands that the class gives to drop an address, the opening of the map among them.
pub data IsDrop (h : Host) (p : PolicyEnforcer) (ip : Text) : Command → Type 0 where
  open_map : IsDrop h p ip (Command.open_map (map_path p.node_id))
  block : (command : Command) → IsBlock h p ip command → IsDrop h p ip command
  loopback_rule : IsDrop h p ip (add_rule (on_loopback (drop_all ip)))

module _ (h : Host) (p : PolicyEnforcer) (ip : Text) (start : Trace) where
  abbrev Drops : Trace × Bool → Type 0
  Drops result = Extends (IsDrop h p ip) start result.0

  ebpf-Drops : Drops (apply_ebpf_drop h p ip start)
  unfolding apply_ebpf_drop change_ebpf_map execute
  ebpf-Drops = if_intro Drops (not (is_valid_ipv4 h ip)) Extends.same (
      if_intro Drops (not (h.succeeds start (Command.open_map (map_path p.node_id))))
        (Extends.more _ _ IsDrop.open_map Extends.same)
        (elim (Option-cases (h.inet_pton4 ip)) [
          | inl missing ↦ rw missing (Extends.more _ _ IsDrop.open_map Extends.same)
          | inr (key, e) ↦ rw e (
              Extends.more _ _ (IsDrop.block _ (IsBlock.entry key e))
                (Extends.more _ _ IsDrop.open_map Extends.same))
        ]))

  nftables-Drops :
      (trace : Trace) → Extends (IsDrop h p ip) start trace → Drops (apply_nftables_drop h ip trace)
  unfolding apply_nftables_drop execute
  nftables-Drops trace before =
      Extends.more _ _ IsDrop.loopback_rule (Extends.more _ _ (IsDrop.block _ IsBlock.rule) before)

  iptables-Drops :
      (trace : Trace) → Extends (IsDrop h p ip) start trace → Drops (apply_iptables_drop h ip trace)
  unfolding apply_iptables_drop execute
  iptables-Drops trace before = Extends.more _ _ (IsDrop.block _ IsBlock.chain_rule) before

  pub drop_address-Extends : Extends (IsDrop h p ip) start (drop_address h p ip start).0
  unfolding drop_address
  drop_address-Extends =
      let first = apply_ebpf_drop h p ip start in
      let second = try_if h p.backends.nftables (apply_nftables_drop h ip) first.0 in
      let after_nftables =
        if_intro Drops p.backends.nftables (nftables-Drops first.0 ebpf-Drops) ebpf-Drops in
      let after_iptables =
        if_intro Drops p.backends.iptables (iptables-Drops second.0 after_nftables)
          after_nftables in
      if_intro Drops first.1 ebpf-Drops (if_intro Drops second.1 after_nftables after_iptables)

  -- `block_ip_address` gives no command for an address that is not valid or that is a loopback
  -- address, and fails on it; for another one every command that it gives opens the map or drops that
  -- address.
  pub block_ip_address-Extends :
      ((not (is_valid_ip h ip) || (is_loopback h ip || is_loopback_ipv6 h ip)) ≡ true
        → block_ip_address h p ip start ≡ (start, false))
      × Extends (IsDrop h p ip) start (block_ip_address h p ip start).0
  unfolding block_ip_address
  block_ip_address-Extends = (
    λ refused. ground arith,
    if_intro Drops (not (is_valid_ip h ip)) Extends.same (
        if_intro Drops (is_loopback h ip || is_loopback_ipv6 h ip) Extends.same
          drop_address-Extends),
  )

-- Every command between two traces is one of these, and one of them, which drops all packets from the
-- address, succeeded.
abbrev pub IsBlocked : Host → PolicyEnforcer → Text → Trace → Trace → Type 0
IsBlocked h p ip start end =
    (before : Trace) × (command : Command) × IsBlock h p ip command
    × (h.succeeds before command ≡ true)
    × Extends (IsDrop h p ip) start before
    × Extends (IsDrop h p ip) (command ∷ before) end

module _ (h : Host) (p : PolicyEnforcer) (ip : Text) (start : Trace) where
  abbrev Succeeds : Trace × Bool → Type 0
  Succeeds result = result.1 ≡ true → IsBlocked h p ip start result.0

  ebpf-Succeeds : Succeeds (apply_ebpf_drop h p ip start)
  unfolding apply_ebpf_drop change_ebpf_map execute
  ebpf-Succeeds =
      let path : Text = map_path p.node_id in
      if_intro Succeeds (not (is_valid_ipv4 h ip)) (λ e. absurd (ground arith))
        (if_intro Succeeds (not (h.succeeds start (Command.open_map path)))
          (λ e. absurd (ground arith))
          (elim (Option-cases (h.inet_pton4 ip)) [
            | inl missing ↦ rw missing (λ e. absurd (ground arith))
            | inr (key, known) ↦ rw known (λ e. (
              Command.open_map path ∷ start,
              Command.update_map path key,
              IsBlock.entry key known,
              e,
              Extends.more _ _ IsDrop.open_map Extends.same,
              Extends.same,
            ))
          ]))

  nftables-Succeeds :
      (trace : Trace)
      → Extends (IsDrop h p ip) start trace
      → Succeeds (apply_nftables_drop h ip trace)
  unfolding apply_nftables_drop execute
  nftables-Succeeds trace given e = (
    trace,
    add_rule (drop_all ip),
    IsBlock.rule,
    e,
    given,
    Extends.more _ _ IsDrop.loopback_rule Extends.same,
  )

  iptables-Succeeds :
      (trace : Trace)
      → Extends (IsDrop h p ip) start trace
      → Succeeds (apply_iptables_drop h ip trace)
  unfolding apply_iptables_drop execute
  iptables-Succeeds trace given e =
      (trace, iptables_rule (codes "-A") ip, IsBlock.chain_rule, e, given, Extends.same)

  drop_address-Succeeds : Succeeds (drop_address h p ip start)
  unfolding drop_address
  drop_address-Succeeds =
      let GivesDrops : Trace × Bool → Type 0 = Drops h p ip start in
      let first = apply_ebpf_drop h p ip start in
      let second = try_if h p.backends.nftables (apply_nftables_drop h ip) first.0 in
      let after_first = ebpf-Drops h p ip start in
      let after_second : Extends (IsDrop h p ip) start second.0 =
        if_intro GivesDrops p.backends.nftables (nftables-Drops h p ip start first.0 after_first)
          after_first in
      let nftables : Succeeds second =
        if_intro Succeeds p.backends.nftables (nftables-Succeeds first.0 after_first)
          (λ e. absurd (ground arith)) in
      let iptables : Succeeds (try_if h p.backends.iptables (apply_iptables_drop h ip) second.0) =
        if_intro Succeeds p.backends.iptables (iptables-Succeeds second.0 after_second)
          (λ e. absurd (ground arith)) in
      if_elim Succeeds first.1 (λ made e. ebpf-Succeeds made)
        (λ failed. if_elim Succeeds second.1 (λ made e. nftables made) (λ missed. iptables))

  -- Where `block_ip_address` reports success, one of the commands that this call gave drops all packets
  -- from the address, and it succeeded; every command of the call opens the map or is one of those that
  -- drop the address.
  pub block_ip_address-IsBlocked : Succeeds (block_ip_address h p ip start)
  unfolding block_ip_address
  block_ip_address-IsBlocked =
      if_intro Succeeds (not (is_valid_ip h ip)) (λ e. absurd (ground arith))
        (if_intro Succeeds (is_loopback h ip || is_loopback_ipv6 h ip) (λ e. absurd (ground arith))
          drop_address-Succeeds)
