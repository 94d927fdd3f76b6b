-- ===== src/Enforcer/Types.antt =====
-- The state of `PolicyEnforcer` (enforcer/PolicyEnforcer.hpp), what it asks of the system, and the
-- commands it gives. A command is a system call or the run of a program; whether it succeeds may
-- depend on every command before it, which a trace lists with the last one in front.
use neuro_mesh.Prelude.{ℕ, ◌-◌, ◌/◌, Bool, Option, List, ◌∷◌, Text}
use neuro_mesh.Prelude.Dict.{Dict}
use neuro_mesh.Prelude.Int.{ℤ}

pub data Signal : Type 0 where
  sigstop : Signal
  sigcont : Signal
  sigterm : Signal
  nothing : Signal

-- `run` is `fork_exec_wait` with its arguments, `list_rules` the run whose output is captured,
-- `kill nothing pid` is `kill(pid, 0)`.
pub data Command : Type 0 where
  run : List Text → Command
  list_rules : Command
  access : Text → Command
  make_directory : Text → Command
  open_map : Text → Command
  update_map : Text → ℕ → Command
  delete_from_map : Text → ℕ → Command
  kill : Signal → ℤ → Command
  open_pidfd : ℕ → Command
  signal_pidfd : Signal → ℕ → Command
  close_pidfd : ℕ → Command

abbrev pub Trace : Type 0
Trace = List Command

-- The system calls and the library functions that the class uses: `inet_pton` (an IPv4 address as the
-- number that `ntohl` gives, an IPv6 address as its bytes), `inet_ntop`, the steady clock in
-- nanoseconds, the success of a command, the text that a listing prints, the descriptor that
-- `pidfd_open` gives.
pub record Host : Type 0 where
  pub inet_pton4 : Text → Option ℕ
  pub inet_ntop4 : ℕ → Text
  pub inet_pton6 : Text → Option (List ℕ)
  pub now : Trace → ℕ
  pub succeeds : Trace → Command → Bool
  pub printed : Trace → Text
  pub pidfd_open : Trace → ℕ → Option ℕ

-- `EnforcementBackend`: its flags.
pub record EnforcementBackend : Type 0 where
  pub ebpf : Bool
  pub nftables : Bool
  pub iptables : Bool

-- The members of the class, and the backends that were probed once.
pub record PolicyEnforcer : Type 0 where
  pub node_id : Text
  pub isolated_nodes : List Text
  pub safe_list : List Text
  pub suspended_pids : List ℕ
  pub suspended_pidfds : Dict ℕ ℕ
  pub peer_ip_map : Dict Text Text
  pub peer_port_map : Dict Text ℕ
  pub last_enforce_time : ℕ
  pub backends : EnforcementBackend

abbrev pub enforce_cooldown_sec : ℕ
enforce_cooldown_sec = 5

-- `duration_cast<seconds>(now - then).count()` for a reading that is not later than `now`.
abbrev pub elapsed_sec : ℕ → ℕ → ℕ
elapsed_sec now since = (now - since) / 1000000000

module _ (h : Host) where
  -- Gives a command: the trace with it, and whether it succeeded.
  unfoldable pub execute : Command → Trace → Trace × Bool
  execute command trace = (command ∷ trace, h.succeeds trace command)
