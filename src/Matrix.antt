-- ===== src/Matrix.antt =====
-- scripts/generate_matrix.py: the decision matrix, one row for each case of the policy tests. The list of
-- scopes is shown as Python shows texts without quotes and backslashes.
pub mod Decisions
use stackai_authz_service.Prelude.{
  String, Bool, true, false, Option, none, some, List, [], ◌∷◌, ◌++◌, map, sorted, if◌then◌else◌,
  ◌==◌,
}
use stackai_authz_service.Action
use stackai_authz_service.Action.{Action, action_value, mem_action}
use stackai_authz_service.Entities.{EntityRef, EntitySlice}
use stackai_authz_service.Decision.{Decision, allow, deny, engine_error}
use stackai_authz_service.Cedar.{Cedar, Policy}
use stackai_authz_service.Engine.{AuthzContext, authorize, join}
use stackai_authz_service.Fixtures.{
  team_ref, workflow_ref, build_slice, RoleCase, ExportCase, KeyCase, matrix, export_matrix,
  key_matrix,
}

pub record Row : Type 0 where
  pub context : String
  pub action : String
  pub state : String
  pub decision : String
  pub policy : String

-- `decision.policy_id or "—"`
abbrev pub policy_text : Option String → String
policy_text none = "—"
policy_text (some id) = if id == "" then "—" else id

-- `_decide`, on the decision
unfoldable pub decide : Decision → String × String
decide (engine_error message) = ("ERROR", message)
decide (allow id) = ("ALLOW", policy_text id)
decide (deny id) = ("DENY", policy_text id)

-- `str` of a Boolean
unfoldable pub shown_bool : Bool → String
shown_bool b = if b then "True" else "False"

-- `AuthzContext(auth_method="jwt")`
abbrev pub jwt_context : AuthzContext
jwt_context = record {
  auth_method = "jwt";
  password_verified = false;
  api_key_scopes = [];
  api_key_org_id = none;
}

-- `AuthzContext(auth_method="anonymous", password_verified=...)`
abbrev pub anonymous_context : Bool → AuthzContext
anonymous_context verified = record {
  auth_method = "anonymous";
  password_verified = verified;
  api_key_scopes = [];
  api_key_org_id = none;
}

-- `AuthzContext(auth_method="api_key", api_key_scopes=..., api_key_org_id="org-1")`
abbrev pub key_context : List String → AuthzContext
key_context scopes = record {
  auth_method = "api_key";
  password_verified = false;
  api_key_scopes = scopes;
  api_key_org_id = some "org-1";
}

unfoldable pub export_state : ExportCase → String
unfolding join shown_bool
export_state c = join "" (
    "exported="
    ∷ shown_bool c.exported
    ∷ ", visibility="
    ∷ c.visibility
    ∷ ", pw_protected="
    ∷ shown_bool c.protected
    ∷ ", pw_verified="
    ∷ shown_bool c.verified
    ∷ ", in_org="
    ∷ shown_bool c.in_org
    ∷ [])

unfoldable pub scopes_state : List String → String
unfolding join sorted
scopes_state scopes =
    join ""
      ("scopes=[" ∷ join ", " (map (λ s. join "" ("'" ∷ s ∷ "'" ∷ [])) (sorted scopes)) ∷ "]" ∷ [])

-- `TEAM if action in {Action.TEAM_DELETE, Action.TEAM_ADD_MEMBER} else WF`
unfoldable pub key_resource : Action → EntityRef
unfolding mem_action
key_resource a =
    if mem_action a (Action.team_delete ∷ Action.team_add_member ∷ [])
    then team_ref
    else workflow_ref

module _ (is_authorized : Cedar) (policies : List Policy) where
  abbrev pub decided : EntityRef × EntitySlice → Action → EntityRef → AuthzContext → String × String
  decided fixture action resource context =
      decide (authorize is_authorized policies fixture.0 action resource fixture.1 context)

  -- The three loops of `_rows`.
  unfoldable pub role_rows : List RoleCase → List Row
  unfolding build_slice
  role_rows cases =
      map
        (λ (c : RoleCase).
          (let answer =
              decided (build_slice c.role false "public" false true team_ref) c.action c.resource
                jwt_context in
            record {
              context = c.role;
              action = action_value c.action;
              state = c.resource.kind;
              decision = answer.0;
              policy = answer.1;
            }))
        cases

  unfoldable pub export_rows : List ExportCase → List Row
  unfolding build_slice
  export_rows cases =
      map
        (λ (c : ExportCase).
          (let answer =
              decided
                (build_slice "anonymous" c.exported c.visibility c.protected c.in_org team_ref)
                Action.workflow_run_exported workflow_ref (anonymous_context c.verified) in
            record {
              context = join "" ("anonymous (" ∷ c.why ∷ ")" ∷ []);
              action = action_value Action.workflow_run_exported;
              state = export_state c;
              decision = answer.0;
              policy = answer.1;
            }))
        cases

  unfoldable pub key_rows : List KeyCase → List Row
  unfolding build_slice
  key_rows cases =
      map
        (λ (c : KeyCase).
          (let answer =
              decided (build_slice "super_admin" false "public" false true team_ref) c.action
                (key_resource c.action) (key_context c.scopes) in
            record {
              context = join "" ("super_admin, api key (" ∷ c.why ∷ ")" ∷ []);
              action = action_value c.action;
              state = scopes_state c.scopes;
              decision = answer.0;
              policy = answer.1;
            }))
        cases

  -- `_rows`, for whatever lists of cases
  unfoldable pub rows : List RoleCase → List ExportCase → List KeyCase → List Row
  unfolding role_rows export_rows key_rows
  rows roles exports keys = role_rows roles ++ (export_rows exports ++ key_rows keys)

-- A line of the table.
unfoldable pub row_line : Row → String
unfolding join
row_line r =
    join ""
      ("| " ∷ join " | " (r.context ∷ r.action ∷ r.state ∷ r.decision ∷ r.policy ∷ []) ∷ " |" ∷ [])

-- The lines that `main` prints.
unfoldable pub page : Cedar → List Policy → List String
unfolding rows row_line
page is_authorized policies =
    "# Decision matrix"
    ∷ ""
    ∷ "Generated by `scripts/generate_matrix.py` from the policy-matrix tests (`packages/authz-core/tests/test_policy_matrix.py`), evaluated through a real `PolicyEngine`. Do not hand-edit — regenerate with:"
    ∷ ""
    ∷ "```"
    ∷ "uv run python scripts/generate_matrix.py > docs/DECISION_MATRIX.md"
    ∷ "```"
    ∷ ""
    ∷ "| Role / context | Action | Resource state | Decision | Deciding policy |"
    ∷ "|---|---|---|---|---|"
    ∷ map (λ r. row_line r) (rows is_authorized policies matrix export_matrix key_matrix)
