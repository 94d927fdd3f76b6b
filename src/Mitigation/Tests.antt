-- ===== src/Mitigation/Tests.antt =====
-- Responses of enforcer/MitigationEngine.cpp to concrete evidence.
use neuro_mesh.Prelude.{◌≡◌, refl, true, false, some, [], ◌∷◌, codes, text_eq, All}
use neuro_mesh.Prelude.Dict.{lookup, has_key}
use neuro_mesh.Prelude.Int.{pos, negsuc}
use neuro_mesh.Mitigation.Allowed.{IsAllowed, execute_response-IsAllowed}
use neuro_mesh.Mitigation.{
  World, Json, JsonValue, Effect, KillResult, validate_evidence_schema, execute_response,
}

-- A parser that knows one text, and an enforcer that can do everything and finds nothing safe.
abbrev toy : World
toy = record {
  parse = λ json. some (
      Json.object (
        (codes "event", JsonValue.text (codes "privilege_escalation"))
        ∷ (codes "pid", JsonValue.integer (pos 4294967295))
        ∷ (codes "src_ip", JsonValue.text (codes "10.0.0.1"))
        ∷ (codes "verdict", JsonValue.text (codes "THREAT"))
        ∷ []));
  sha256_hex = λ text. codes "0f";
  own_pid = 77;
  probe = λ pid. true;
  kill = λ pid. KillResult.delivered;
  enforcer = some (record {
    is_ip_safe = λ ip. false;
    block_ip_address = λ ip. true;
    isolate_target = λ id. true;
  });
}

-- This evidence makes the node send SIGKILL to -1, every process.
kills_all : execute_response toy (codes "e") (codes "n") ≡ (
  Effect.signal (negsuc 0) ∷ Effect.block (codes "10.0.0.1") ∷ Effect.isolate (codes "n") ∷ [],
  true,
)
unfolding execute_response lookup has_key text_eq
kills_all = refl

execute_response-IsAllowed_example :
    (validate_evidence_schema toy (codes "e") ≡ false
      → execute_response toy (codes "e") (codes "n") ≡ ([], false))
    × All (IsAllowed toy (codes "e") (codes "n")) (execute_response toy (codes "e") (codes "n")).0
execute_response-IsAllowed_example = execute_response-IsAllowed toy (codes "e") (codes "n")
