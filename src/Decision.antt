-- ===== src/Decision.antt =====
-- packages/authz-core/src/authz_core/decision.py. `allowed` is a class constant of each case.
use stackai_authz_service.Prelude.{String, Bool, true, false, Option, none}

pub data Decision : Type 0 where
  allow : Option String → Decision
  deny : Option String → Decision
  engine_error : String → Decision

abbrev pub is_allowed : Decision → Bool
is_allowed (allow p) = true
is_allowed (deny p) = false
is_allowed (engine_error m) = false

-- `isinstance(decision, EngineError)`
abbrev pub is_engine_error : Decision → Bool
is_engine_error (engine_error m) = true
is_engine_error _ = false

-- `getattr(decision, "policy_id", None)`
abbrev pub policy_id : Decision → Option String
policy_id (allow p) = p
policy_id (deny p) = p
policy_id (engine_error m) = none
