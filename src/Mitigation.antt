-- ===== src/Mitigation.antt =====
-- The response to a verdict: class `MitigationEngine` of enforcer/MitigationEngine.cpp. The JSON
-- parser, the process table and the policy enforcer are parameters; the log is left out.
pub mod Allowed
mod Tests
use neuro_mesh.Prelude.{
  ℕ, suc, ◌+◌, ◌-◌, ◌%◌, ◌^◌, Bool, true, false, not, ◌&&◌, ◌||◌, Option, none, some, List, [], ◌∷◌,
  ◌++◌, Text, codes, text_key, text_eq, is_empty, if◌then◌else◌, ltb, leb, ◌==◌, length, any_of,
}
use neuro_mesh.Prelude.Dict.{Dict, lookup, has_key}
use neuro_mesh.Prelude.Int.{ℤ, pos, negsuc}

-- What the engine sees of a JSON value, and of a text that parses.
pub data JsonValue : Type 0 where
  text : Text → JsonValue
  integer : ℤ → JsonValue
  other : JsonValue

pub data Json : Type 0 where
  object : Dict Text JsonValue → Json
  no_object : Json

-- What `kill` gives with SIGKILL: 0, the error ESRCH, or another error.
pub data KillResult : Type 0 where
  delivered : KillResult
  no_process : KillResult
  failed : KillResult

-- The methods of `PolicyEnforcer` that the engine calls.
pub record Enforcer : Type 0 where
  pub is_ip_safe : Text → Bool
  pub block_ip_address : Text → Bool
  pub isolate_target : Text → Bool

-- `probe p` is whether `kill(p, 0)` succeeds.
pub record World : Type 0 where
  pub parse : Text → Option Json
  pub sha256_hex : Text → Text
  pub own_pid : ℕ
  pub probe : ℤ → Bool
  pub kill : ℤ → KillResult
  pub enforcer : Option Enforcer

-- What the engine does to the outside, in the order in which it does it: SIGKILL to a `pid_t`, the
-- block of an address, the isolation of a node.
pub data Effect : Type 0 where
  signal : ℤ → Effect
  block : Text → Effect
  isolate : Text → Effect

-- `static_cast<pid_t>` of a `uint32_t`.
abbrev pub to_pid_t : ℕ → ℤ
to_pid_t pid = if ltb pid (2 ^ 31) then pos pid else negsuc (2 ^ 32 - 1 - pid)

-- `get<int64_t>` of a JSON integer, which may be as large as an unsigned one.
abbrev pub to_int64 : ℤ → ℤ
to_int64 (pos n) = if ltb n (2 ^ 63) then pos n else negsuc (2 ^ 64 - 1 - n)
to_int64 (negsuc n) = negsuc n

abbrev pub valid_fields : List Text
valid_fields =
    codes "event"
    ∷ codes "verdict"
    ∷ codes "src_ip"
    ∷ codes "pid"
    ∷ codes "node"
    ∷ codes "entropy"
    ∷ codes "source"
    ∷ []

module _ (w : World) where
  -- The value under a key, if the text is an object that has it.
  unfoldable pub field_of : Text → Text → Option JsonValue
  unfolding lookup
  field_of json key = elim (w.parse json) [
    | none ↦ none
    | some value ↦ elim value [ object fields ↦ lookup key fields | no_object ↦ none ]
  ]

  unfoldable pub extract_str : Text → Text → Text
  unfolding field_of
  extract_str json key = elim (field_of json key) [
    | none ↦ []
    | some value ↦ elim value [ text s ↦ s | integer n ↦ [] | other ↦ [] ]
  ]

  unfoldable pub extract_int : Text → Text → ℤ
  unfolding field_of
  extract_int json key = elim (field_of json key) [
    | none ↦ negsuc 0
    | some value ↦ elim value [ text s ↦ negsuc 0 | integer n ↦ to_int64 n | other ↦ negsuc 0 ]
  ]

  unfoldable pub validate_evidence_schema : Text → Bool
  unfolding has_key
  validate_evidence_schema json =
      if is_empty json || ltb 8192 (length json) then false else elim (w.parse json) [
        | none ↦ false
        | some value ↦ elim value [
          | object fields ↦ any_of (λ field. has_key field fields) valid_fields
          | no_object ↦ false
        ]
      ]

  unfoldable pub validate_pid : ℕ → Bool
  validate_pid pid =
      if leb pid 1
      then false
      else if pid == w.own_pid % 2 ^ 32
      then false
      else w.probe (to_pid_t pid)

  unfoldable pub terminate_process : ℕ → List Effect × Bool
  unfolding validate_pid
  terminate_process pid = if not (validate_pid pid) then ([], false) else (
    Effect.signal (to_pid_t pid) ∷ [],
    elim (w.kill (to_pid_t pid)) [ delivered ↦ true | no_process ↦ true | failed ↦ false ],
  )

  unfoldable pub block_ip_address : Text → List Effect × Bool
  block_ip_address ip = elim w.enforcer [
    | none ↦ ([], false)
    | some enforcer ↦ (Effect.block ip ∷ [], enforcer.block_ip_address ip)
  ]

  -- The path of process termination, from the event and the number under "pid".
  unfoldable pub respond_kill : Text → ℤ → List Effect × Bool
  unfolding terminate_process
  respond_kill event_type (negsuc n) = ([], false)
  respond_kill event_type (pos n) =
      if text_eq event_type (codes "privilege_escalation") && ltb 0 n
      then terminate_process (n % 2 ^ 32)
      else ([], false)

  -- `m_enforcer && m_enforcer->is_ip_safe(ip)`
  unfoldable pub is_safe : Text → Bool
  is_safe ip = elim w.enforcer [ none ↦ false | some enforcer ↦ enforcer.is_ip_safe ip ]

  unfoldable pub respond_block : Text → Text → Text → List Effect × Bool
  unfolding block_ip_address is_safe
  respond_block event_type verdict src_ip =
      if not (is_empty src_ip)
        && (text_eq event_type (codes "lateral_movement")
            || text_eq verdict (codes "THREAT")
            || text_eq verdict (codes "CRITICAL"))
      then (if is_safe src_ip then ([], false) else block_ip_address src_ip)
      else ([], false)

  unfoldable pub respond_isolate : Text → List Effect × Bool
  respond_isolate target_id = elim w.enforcer [
    | none ↦ ([], false)
    | some enforcer ↦
        if is_empty target_id
        then ([], false)
        else (Effect.isolate target_id ∷ [], enforcer.isolate_target target_id)
  ]

  unfoldable pub execute_response : Text → Text → List Effect × Bool
  unfolding validate_evidence_schema respond_kill respond_block respond_isolate extract_str
      extract_int
  execute_response evidence_json target_id =
      let event_type = extract_str evidence_json (codes "event") in
      let verdict = extract_str evidence_json (codes "verdict") in
      let src_ip = extract_str evidence_json (codes "src_ip") in
      let (killed, kill_ok) = respond_kill event_type (extract_int evidence_json (codes "pid")) in
      let (blocked, block_ok) = respond_block event_type verdict src_ip in
      let (isolated, isolate_ok) = respond_isolate target_id in
      if not (validate_evidence_schema evidence_json)
      then ([], false)
      else if is_empty (w.sha256_hex evidence_json)
      then ([], false)
      else (killed ++ blocked ++ isolated, kill_ok || block_ok || isolate_ok)
