-- ===== src/Enforcer/Isolation/Commands.antt =====
-- The commands that `isolate_target` of enforcer/PolicyEnforcer.cpp gives.
use neuro_mesh.Prelude.{
  ℕ, ◌≡◌, ◌≢◌, refl, Bool, true, false, Text, text_key, codes, is_empty, ◌==◌, arith, if_intro,
  if_elim,
}
use neuro_mesh.Prelude.Dict.{contains}
use neuro_mesh.Enforcer.Types.{Command, Trace, Host, PolicyEnforcer, execute}
use neuro_mesh.Enforcer.Addresses.{is_safe, resolve_target, resolve_port}
use neuro_mesh.Enforcer.Nftables.{add_rule, drop_port, on_loopback, apply_nftables_port_drop}
use neuro_mesh.Enforcer.Backends.Order.{Extends, same, more, IsDrop, drop_address-Extends}
use neuro_mesh.Enforcer.Isolation.{
  record_isolation, is_local, isolate_address, on_cooldown, isolate_target,
}

-- The commands that drop the packets to one port on the loopback interface.
pub data IsPortDrop (ip : Text) (port : ℕ) : Command → Type 0 where
  tcp : port ≢ 0 → IsPortDrop ip port (add_rule (on_loopback (drop_port ip port (codes "tcp"))))
  udp : port ≢ 0 → IsPortDrop ip port (add_rule (on_loopback (drop_port ip port (codes "udp"))))

module _ (h : Host) (p : PolicyEnforcer) (target : Text) (start : Trace) where
  -- What may be given for an address: drops of a port for a loopback address, else of the address.
  abbrev pub Given : Text → Trace → Type 0
  Given ip end =
      (is_local h ip ≡ true → Extends (IsPortDrop ip (resolve_port p target)) start end)
      × (is_local h ip ≡ false → Extends (IsDrop h p ip) start end)

  port-Extends :
      (ip : Text) (port : ℕ)
      → Extends (IsPortDrop ip port) start (apply_nftables_port_drop h ip port start).0
  unfolding apply_nftables_port_drop execute
  port-Extends ip port =
      if_elim (λ (result : Trace × Bool). Extends (IsPortDrop ip port) start result.0) (port == 0)
        (λ zero_port. same)
        (λ some_port.
          let nonzero : port ≢ 0 = λ e. absurd (ground arith) in
          more _ _ (IsPortDrop.udp nonzero) (more _ _ (IsPortDrop.tcp nonzero) same))

  isolate_address-Given : (ip : Text) → Given ip (isolate_address h p target ip start).0
  unfolding isolate_address record_isolation
  isolate_address-Given ip =
      let G : Trace × PolicyEnforcer × Bool → Type 0 = λ result. Given ip result.0 in
      let ports : Trace × Bool → Type 0 =
        λ result. Extends (IsPortDrop ip (resolve_port p target)) start result.0 in
      if_elim G (is_local h ip)
        (λ local.
          if_intro G (resolve_port p target == 0) (λ e. same, λ e. absurd (ground arith))
            (
              λ e.
                  if_intro ports p.backends.nftables (port-Extends ip (resolve_port p target)) same,
              λ e. absurd (ground arith),
            ))
        (λ remote. (λ e. absurd (ground arith), λ e. drop_address-Extends h p ip start))

  -- `isolate_target` gives no command for a target on the safe list. For another one, every command is
  -- about the address that the target resolves to: on a loopback address it drops the packets to the
  -- port of the target, which is not 0, on the loopback interface; on another address it drops the
  -- address, or opens the map of dropped addresses.
  pub isolate_target-Given :
      (is_safe p target ≡ true → (isolate_target h p target start).0 ≡ start)
      × Given (resolve_target h p target) (isolate_target h p target start).0
  unfolding isolate_target
  isolate_target-Given =
      let ip : Text = resolve_target h p target in
      let G : Trace × PolicyEnforcer × Bool → Type 0 = λ result. Given ip result.0 in
      let S : Trace × PolicyEnforcer × Bool → Type 0 = λ result. result.0 ≡ start in
      (
        λ safe. if_intro S (on_cooldown h p start) refl (
            if_intro S (contains target p.isolated_nodes) refl
              (if_elim S (is_safe p target) (λ e. refl) (λ e. absurd (ground arith)))),
        if_intro G (on_cooldown h p start) (λ e. same, λ e. same)
            (if_intro G (contains target p.isolated_nodes) (λ e. same, λ e. same)
              (if_intro G (is_safe p target) (λ e. same, λ e. same)
                (if_intro G (is_empty ip) (λ e. same, λ e. same) (isolate_address-Given ip)))),
      )
