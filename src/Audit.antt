-- ===== src/Audit.antt =====
-- src/app/infra/audit.py: which decisions are recorded, and the row that is written.
use stackai_authz_service.Prelude.{
  String, Bool, true, ◌||◌, not, Option, List, [], ◌∷◌, if◌then◌else◌,
}
use stackai_authz_service.Action.{Action, action_value, mem_action}
use stackai_authz_service.Decision.{Decision, is_allowed, is_engine_error, policy_id}

abbrev pub read_actions : List Action
read_actions = Action.workflow_view ∷ Action.workflow_list ∷ []

unfoldable pub should_record : Action → Decision → Bool
unfolding mem_action
should_record action decision =
    if is_engine_error decision || not (is_allowed decision)
    then true
    else not (mem_action action read_actions)

pub record AuditRow : Type 0 where
  pub org_id : Option String
  pub principal_id : String
  pub auth_method : String
  pub action : String
  pub resource_type : String
  pub resource_id : String
  pub decision : String
  pub policy_id : Option String
  pub correlation_id : String

-- The column "decision".
unfoldable pub decision_text : Decision → String
decision_text d = if is_engine_error d then "error" else if is_allowed d then "allow" else "deny"

-- The row of `AuditWriter.record`. Writing it to the table is left out: a failure there is logged
-- and changes nothing.
unfoldable pub audit_row :
    Option String
    → (principal_id auth_method : String) → Action
    → (resource_type resource_id : String) → Decision
    → String
    → AuditRow
unfolding decision_text action_value
audit_row org_id principal_id auth_method action resource_type resource_id decision correlation_id =
    record {
      org_id = org_id;
      principal_id = principal_id;
      auth_method = auth_method;
      action = action_value action;
      resource_type = resource_type;
      resource_id = resource_id;
      decision = decision_text decision;
      policy_id = policy_id decision;
      correlation_id = correlation_id;
    }
