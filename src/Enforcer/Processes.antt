-- ===== src/Enforcer/Processes.antt =====
-- Suspended processes in enforcer/PolicyEnforcer.cpp: `suspend_process` and `reset_enforcement`. A
-- process that has a descriptor is signalled through it, another one by its number.
pub mod Reset
use neuro_mesh.Prelude.{
  ℕ, zero, suc, Bool, true, false, not, ◌||◌, ◌≡◌, refl, Option, none, some, List, [], ◌∷◌, ◌++◌,
  All, nat_key, if◌then◌else◌, arith, Bool-cases, Option-cases, inl, inr, if_intro, ◌==◌,
}
use neuro_mesh.Prelude.Int.{ℤ}
use neuro_mesh.Prelude.Dict.{Dict, lookup, insert, contains, add}
use neuro_mesh.Mitigation.{to_pid_t}
use neuro_mesh.Enforcer.Types.{
  Command, Signal, sigstop, sigcont, sigterm, nothing, Trace, Host, PolicyEnforcer, execute,
}

module _ (h : Host) where
  unfoldable pub suspend_process : ℕ → PolicyEnforcer → Trace → Trace × PolicyEnforcer
  unfolding contains add insert execute
  suspend_process pid p trace =
      let (stopped, _) = execute h (Command.kill sigstop (to_pid_t pid)) trace in
      let suspended = record p { suspended_pids = add pid p.suspended_pids } in
      if contains pid p.suspended_pids then (trace, p) else (
        Command.open_pidfd pid ∷ stopped,
        elim (h.pidfd_open stopped pid) [
          | none ↦ suspended
          | some pidfd ↦ record suspended {
            suspended_pidfds = insert pid pidfd suspended.suspended_pidfds;
          }
        ],
      )

  -- One round of the loop of `reset_enforcement`.
  unfoldable pub resume_by_pidfd : ℕ → Trace → Trace
  unfolding execute
  resume_by_pidfd pidfd trace =
      let (continued, delivered) = execute h (Command.signal_pidfd sigcont pidfd) trace in
      Command.close_pidfd pidfd
      ∷ (if delivered then Command.signal_pidfd sigterm pidfd ∷ continued else continued)

  unfoldable pub resume_by_pid : ℕ → Trace → Trace
  unfolding execute
  resume_by_pid pid trace =
      let (probed, exists) = execute h (Command.kill nothing (to_pid_t pid)) trace in
      if exists
      then Command.kill sigterm (to_pid_t pid) ∷ Command.kill sigcont (to_pid_t pid) ∷ probed
      else probed

  unfoldable pub resume : Dict ℕ ℕ → ℕ → Trace → Trace
  unfolding lookup resume_by_pidfd resume_by_pid
  resume pidfds pid trace = elim (lookup pid pidfds) [
    | none ↦ resume_by_pid pid trace
    | some pidfd ↦ resume_by_pidfd pidfd trace
  ]

  unfoldable pub resume_all : Dict ℕ ℕ → List ℕ → Trace → Trace
  unfolding resume
  resume_all pidfds [] trace = trace
  resume_all pidfds (pid ∷ pids) trace = resume_all pidfds pids (resume pidfds pid trace)

  unfoldable pub reset_enforcement : PolicyEnforcer → Trace → Trace × PolicyEnforcer
  unfolding resume_all
  reset_enforcement p trace = (
    resume_all p.suspended_pidfds p.suspended_pids trace,
    record p { suspended_pids = []; suspended_pidfds = [] },
  )
