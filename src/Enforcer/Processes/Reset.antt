-- ===== src/Enforcer/Processes/Reset.antt =====
-- The signals that `reset_enforcement` of enforcer/PolicyEnforcer.cpp sends.
use neuro_mesh.Prelude.{
  ℕ, ◌≡◌, refl, true, false, none, some, List, [], ◌∷◌, nat_key, ◌==◌, Bool-cases, ==_iff, arith,
  Option-cases, inl, inr, if_intro, if_elim,
}
use neuro_mesh.Prelude.Dict.{Dict, lookup, contains}
use neuro_mesh.Mitigation.{to_pid_t}
use neuro_mesh.Enforcer.Types.{
  Command, Signal, sigcont, sigterm, nothing, Trace, Host, PolicyEnforcer, execute,
}
use neuro_mesh.Enforcer.Backends.Order.{Extends, same, more}
use neuro_mesh.Enforcer.Processes.{
  resume_by_pidfd, resume_by_pid, resume, resume_all, reset_enforcement,
}

-- A signal by number goes to a suspended process that has no descriptor; a signal by a descriptor, and
-- its closing, goes to the descriptor of a suspended process. No other command is given.
pub data IsResume (pids : List ℕ) (pidfds : Dict ℕ ℕ) : Command → Type 0 where
  by_number :
      (signal : Signal) (pid : ℕ)
      → contains pid pids ≡ true
      → lookup pid pidfds ≡ none
      → IsResume pids pidfds (Command.kill signal (to_pid_t pid))
  by_pidfd :
      (signal : Signal) (pid pidfd : ℕ)
      → contains pid pids ≡ true
      → lookup pid pidfds ≡ some pidfd
      → IsResume pids pidfds (Command.signal_pidfd signal pidfd)
  close :
      (pid pidfd : ℕ)
      → contains pid pids ≡ true
      → lookup pid pidfds ≡ some pidfd
      → IsResume pids pidfds (Command.close_pidfd pidfd)

module _ (h : Host) (pids : List ℕ) (pidfds : Dict ℕ ℕ) (start : Trace) where
  abbrev Resumes : Trace → Type 0
  Resumes = Extends (IsResume pids pidfds) start

  resume-Resumes :
      (pid : ℕ) (trace : Trace)
      → contains pid pids ≡ true
      → Resumes trace
      → Resumes (resume h pidfds pid trace)
  unfolding resume resume_by_pidfd resume_by_pid execute
  resume-Resumes pid trace listed before = elim (Option-cases (lookup pid pidfds)) [
    | inl missing ↦
        let probed = more _ _ (IsResume.by_number nothing pid listed missing) before in
        rw (resume, missing)
          (if_intro Resumes (h.succeeds trace (Command.kill nothing (to_pid_t pid)))
            (more _ _ (IsResume.by_number sigterm pid listed missing)
              (more _ _ (IsResume.by_number sigcont pid listed missing) probed))
            probed)
    | inr (pidfd, e) ↦
        let continued = more _ _ (IsResume.by_pidfd sigcont pid pidfd listed e) before in
        rw (resume, e)
          (more _ _ (IsResume.close pid pidfd listed e) (
            if_intro Resumes (h.succeeds trace (Command.signal_pidfd sigcont pidfd))
              (more _ _ (IsResume.by_pidfd sigterm pid pidfd listed e) continued) continued))
  ]

  resume_all-Resumes :
      (left : List ℕ) (trace : Trace)
      → ((pid : ℕ) → contains pid left ≡ true → contains pid pids ≡ true)
      → Resumes trace
      → Resumes (resume_all h pidfds left trace)
  unfolding resume_all contains
  resume_all-Resumes [] trace within before = before
  resume_all-Resumes (pid ∷ left) trace within before =
      resume_all-Resumes left _ (λ other listed. within other (ground arith))
        (resume-Resumes pid trace (within pid (ground (arith, ==_iff pid pid))) before)

-- What happened to a suspended process between two traces. Through its descriptor it was sent SIGCONT,
-- and SIGTERM if that was delivered, and the descriptor was closed. Without one its number was probed,
-- and if there is such a process it was sent SIGCONT and SIGTERM.
pub data IsResumed (h : Host) (P : Command → Type 0) (pidfds : Dict ℕ ℕ) (start end : Trace)
    : ℕ → Type 0 where
  terminated :
      (pid pidfd : ℕ) (before : Trace)
      → lookup pid pidfds ≡ some pidfd
      → h.succeeds before (Command.signal_pidfd sigcont pidfd) ≡ true
      → Extends P start before
      → Extends P
          (Command.close_pidfd pidfd
            ∷ Command.signal_pidfd sigterm pidfd
            ∷ Command.signal_pidfd sigcont pidfd
            ∷ before)
          end
      → IsResumed h P pidfds start end pid
  undelivered :
      (pid pidfd : ℕ) (before : Trace)
      → lookup pid pidfds ≡ some pidfd
      → h.succeeds before (Command.signal_pidfd sigcont pidfd) ≡ false
      → Extends P start before
      → Extends P (Command.close_pidfd pidfd ∷ Command.signal_pidfd sigcont pidfd ∷ before) end
      → IsResumed h P pidfds start end pid
  terminated_by_number :
      (pid : ℕ) (before : Trace)
      → lookup pid pidfds ≡ none
      → h.succeeds before (Command.kill nothing (to_pid_t pid)) ≡ true
      → Extends P start before
      → Extends P
          (Command.kill sigterm (to_pid_t pid)
            ∷ Command.kill sigcont (to_pid_t pid)
            ∷ Command.kill nothing (to_pid_t pid)
            ∷ before)
          end
      → IsResumed h P pidfds start end pid
  gone :
      (pid : ℕ) (before : Trace)
      → lookup pid pidfds ≡ none
      → h.succeeds before (Command.kill nothing (to_pid_t pid)) ≡ false
      → Extends P start before
      → Extends P (Command.kill nothing (to_pid_t pid) ∷ before) end
      → IsResumed h P pidfds start end pid

module _ {P : Command → Type 0} where
  Extends-trans : {a b c : Trace} → Extends P a b → Extends P b c → Extends P a c
  Extends-trans first same = first
  Extends-trans first (more command trace holds later) =
      Extends.more command trace holds (Extends-trans first later)

  IsResumed-later :
      {h : Host} {pidfds : Dict ℕ ℕ} {start end last : Trace} {pid : ℕ}
      → IsResumed h P pidfds start end pid
      → Extends P end last
      → IsResumed h P pidfds start last pid
  IsResumed-later (IsResumed.terminated pid pidfd before known sent from to) later =
      IsResumed.terminated pid pidfd before known sent from (Extends-trans to later)
  IsResumed-later (IsResumed.undelivered pid pidfd before known failed from to) later =
      IsResumed.undelivered pid pidfd before known failed from (Extends-trans to later)
  IsResumed-later (IsResumed.terminated_by_number pid before unknown found from to) later =
      IsResumed.terminated_by_number pid before unknown found from (Extends-trans to later)
  IsResumed-later (IsResumed.gone pid before unknown absent from to) later =
      IsResumed.gone pid before unknown absent from (Extends-trans to later)

module _ (h : Host) (pids : List ℕ) (pidfds : Dict ℕ ℕ) (start : Trace) where
  abbrev Resumed : ℕ → Trace → Type 0
  Resumed pid end = IsResumed h (IsResume pids pidfds) pidfds start end pid

  resume-Resumed :
      (pid : ℕ) (trace : Trace)
      → Resumes h pids pidfds start trace
      → Resumed pid (resume h pidfds pid trace)
  unfolding resume resume_by_pidfd resume_by_pid execute
  resume-Resumed pid trace before = elim (Option-cases (lookup pid pidfds)) [
    | inl missing ↦
        rw (resume, missing)
          (if_elim (Resumed pid) (h.succeeds trace (Command.kill nothing (to_pid_t pid)))
            (λ found. IsResumed.terminated_by_number pid trace missing found before same)
            (λ absent. IsResumed.gone pid trace missing absent before same))
    | inr (pidfd, e) ↦
        rw (resume, e)
          (if_elim (λ (given : Trace). Resumed pid (Command.close_pidfd pidfd ∷ given))
            (h.succeeds trace (Command.signal_pidfd sigcont pidfd))
            (λ sent. IsResumed.terminated pid pidfd trace e sent before same)
            (λ failed. IsResumed.undelivered pid pidfd trace e failed before same))
  ]

  resume_all-Resumed :
      (left : List ℕ) (trace : Trace)
      → ((pid : ℕ) → contains pid left ≡ true → contains pid pids ≡ true)
      → Resumes h pids pidfds start trace
      → (pid : ℕ) → contains pid left ≡ true
      → Resumed pid (resume_all h pidfds left trace)
  unfolding resume_all contains
  resume_all-Resumed [] trace within before pid listed = absurd (ground arith)
  resume_all-Resumed (head ∷ left) trace within before pid listed =
      let after : Trace = resume h pidfds head trace in
      let in_left : (other : ℕ) → contains other left ≡ true → contains other pids ≡ true =
        λ other found. within other (ground arith) in
      let head_listed : contains head pids ≡ true =
        within head (ground (arith, ==_iff head head)) in
      elim (Bool-cases (pid == head)) [
        | inl equal ↦ rw ((==_iff pid head).0 equal) (
            IsResumed-later (resume-Resumed head trace before)
              (resume_all-Resumes h pids pidfds after left after in_left same))
        | inr other ↦
            resume_all-Resumed left after in_left
              (resume-Resumes h pids pidfds start head trace head_listed before) pid (ground arith)
      ]

-- `reset_enforcement` resumes every suspended process: through the descriptor, if one was opened for it,
-- SIGCONT is sent, SIGTERM if that was delivered, and the descriptor is closed; otherwise its number is
-- probed, and SIGCONT and SIGTERM are sent if there is such a process. Every command of the call is
-- about a suspended process, by its number only if it has no descriptor. The lists of suspended
-- processes and of descriptors are empty afterwards.
pub reset_enforcement-Resumes :
    (h : Host) (p : PolicyEnforcer) (trace : Trace)
    → let given = IsResume p.suspended_pids p.suspended_pidfds in
      let (end, after) = reset_enforcement h p trace in
      ((pid : ℕ)
        → contains pid p.suspended_pids ≡ true
        → IsResumed h given p.suspended_pidfds trace end pid)
      × Extends given trace end
      × (after.suspended_pids ≡ [])
      × (after.suspended_pidfds ≡ [])
unfolding reset_enforcement
reset_enforcement-Resumes h p trace = (
  resume_all-Resumed h p.suspended_pids p.suspended_pidfds trace p.suspended_pids trace
      (λ pid listed. listed) same,
  resume_all-Resumes h p.suspended_pids p.suspended_pidfds trace p.suspended_pids trace
      (λ pid listed. listed) same,
  refl,
  refl,
)
