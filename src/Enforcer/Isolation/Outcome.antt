-- ===== src/Enforcer/Isolation/Outcome.antt =====
-- What `isolate_target` of enforcer/PolicyEnforcer.cpp leaves behind.
use neuro_mesh.Prelude.{
  ◌≡◌, refl, Bool, true, false, Text, text_key, is_empty, ◌==◌, arith, if_intro, if_elim,
}
use neuro_mesh.Prelude.Dict.{contains, add}
use neuro_mesh.Enforcer.Types.{Trace, Host, PolicyEnforcer}
use neuro_mesh.Enforcer.Addresses.{is_safe, resolve_target, resolve_port}
use neuro_mesh.Enforcer.Isolation.{
  record_isolation, is_local, isolate_address, on_cooldown, isolate_target,
}

-- A failure changes nothing. A success adds the target, and sets the time of the last enforcement to the
-- clock's, after the commands of the call.
abbrev pub IsOutcome : Host → PolicyEnforcer → Text → Trace × PolicyEnforcer × Bool → Type 0
IsOutcome h p target result =
    (result.2 ≡ false → result.1 ≡ p)
    × (result.2 ≡ true
        → result.1 ≡ record p {
          isolated_nodes = add target p.isolated_nodes;
          last_enforce_time = h.now result.0;
        })

module _ (h : Host) (p : PolicyEnforcer) (target : Text) where
  record-IsOutcome : (done : Trace × Bool) → IsOutcome h p target (record_isolation h p target done)
  unfolding record_isolation
  record-IsOutcome (trace, true) = (λ e. absurd (ground arith), λ e. refl)
  record-IsOutcome (trace, false) = (λ e. refl, λ e. absurd (ground arith))

  failure-IsOutcome : (trace : Trace) → IsOutcome h p target (trace, p, false)
  failure-IsOutcome trace = (λ e. refl, λ e. absurd (ground arith))

  address-IsOutcome :
      (resolved_ip : Text) (trace : Trace)
      → IsOutcome h p target (isolate_address h p target resolved_ip trace)
  unfolding isolate_address
  address-IsOutcome resolved_ip trace =
      if_intro (IsOutcome h p target) (is_local h resolved_ip)
        (if_intro (IsOutcome h p target) (resolve_port p target == 0) (failure-IsOutcome trace)
          (record-IsOutcome _))
        (record-IsOutcome _)

  isolated-IsOutcome :
      (trace : Trace)
      → contains target p.isolated_nodes ≡ true
      → IsOutcome h p target (trace, record p { last_enforce_time = h.now trace }, true)
  unfolding add
  isolated-IsOutcome trace known = (λ e. absurd (ground arith), λ e. rw known refl)

  -- Where `isolate_target` reports a failure, the enforcer is as it was. Where it reports success, the
  -- target is among the isolated nodes, the time of the last enforcement is what the clock shows after
  -- the commands of the call, and nothing else has changed.
  pub isolate_target-IsOutcome :
      (trace : Trace) → IsOutcome h p target (isolate_target h p target trace)
  unfolding isolate_target
  isolate_target-IsOutcome trace =
      let cooling = on_cooldown h p trace in
      let resolved_ip : Text = resolve_target h p target in
      if_intro (IsOutcome h p target) cooling (failure-IsOutcome trace) (
        if_elim (IsOutcome h p target) (contains target p.isolated_nodes) (isolated-IsOutcome trace)
          (λ fresh. if_intro (IsOutcome h p target) (is_safe p target) (failure-IsOutcome trace) (
            if_intro (IsOutcome h p target) (is_empty resolved_ip) (failure-IsOutcome trace)
              (address-IsOutcome resolved_ip trace))))
