-- ===== src/Action.antt =====
-- packages/authz-core/src/authz_core/actions.py: the action vocabulary, the two action groups and the
-- scope that an API key needs for each action.
use stackai_authz_service.Prelude.{
  String, Bool, Option, none, some, List, [], ◌∷◌, any, if◌then◌else◌, ◌==◌,
}

pub data Action : Type 0 where
  org_add_user org_remove_user org_change_role team_create : Action
  team_delete team_add_member team_remove_member team_change_role : Action
  org_view team_view workflow_list workflow_view : Action
  workflow_create workflow_update workflow_delete workflow_run : Action
  workflow_export workflow_protect_export workflow_run_exported role_create : Action
  role_delete api_key_create api_key_revoke : Action

-- `Action.X.value`; `Action` is a `StrEnum`, so two members are equal when their values are.
unfoldable pub action_value : Action → String
action_value org_add_user = "OrgAddUser"
action_value org_remove_user = "OrgRemoveUser"
action_value org_change_role = "OrgChangeRole"
action_value team_create = "TeamCreate"
action_value team_delete = "TeamDelete"
action_value team_add_member = "TeamAddMember"
action_value team_remove_member = "TeamRemoveMember"
action_value team_change_role = "TeamChangeRole"
action_value org_view = "OrgView"
action_value team_view = "TeamView"
action_value workflow_list = "WorkflowList"
action_value workflow_view = "WorkflowView"
action_value workflow_create = "WorkflowCreate"
action_value workflow_update = "WorkflowUpdate"
action_value workflow_delete = "WorkflowDelete"
action_value workflow_run = "WorkflowRun"
action_value workflow_export = "WorkflowExport"
action_value workflow_protect_export = "WorkflowProtectExport"
action_value workflow_run_exported = "WorkflowRunExported"
action_value role_create = "RoleCreate"
action_value role_delete = "RoleDelete"
action_value api_key_create = "ApiKeyCreate"
action_value api_key_revoke = "ApiKeyRevoke"

infix 50 ◌is◌
unfoldable pub ◌is◌ : Action → Action → Bool
unfolding action_value
a is b = action_value a == action_value b

-- `a in xs`
unfoldable pub mem_action : Action → List Action → Bool
unfolding ◌is◌
mem_action a xs = any (λ b. a is b) xs

-- `for a in Action`
abbrev pub all_actions : List Action
all_actions =
    org_add_user ∷ org_remove_user ∷ org_change_role ∷ team_create ∷ team_delete ∷ team_add_member
    ∷ team_remove_member ∷ team_change_role ∷ org_view ∷ team_view ∷ workflow_list ∷ workflow_view
    ∷ workflow_create ∷ workflow_update ∷ workflow_delete ∷ workflow_run ∷ workflow_export
    ∷ workflow_protect_export ∷ workflow_run_exported ∷ role_create ∷ role_delete ∷ api_key_create
    ∷ api_key_revoke ∷ []

abbrev pub governance_actions : List Action
governance_actions =
    org_add_user ∷ org_remove_user ∷ org_change_role ∷ team_create ∷ team_delete ∷ team_add_member
    ∷ team_remove_member ∷ team_change_role ∷ role_create ∷ role_delete ∷ api_key_create
    ∷ api_key_revoke ∷ []

abbrev pub org_administrable_actions : List Action
org_administrable_actions =
    org_view ∷ org_add_user ∷ org_remove_user ∷ org_change_role ∷ team_view ∷ team_create
    ∷ team_delete ∷ team_add_member ∷ team_remove_member ∷ team_change_role ∷ workflow_list
    ∷ workflow_view ∷ workflow_create ∷ workflow_update ∷ workflow_delete ∷ workflow_run
    ∷ workflow_export ∷ workflow_protect_export ∷ role_create ∷ role_delete ∷ api_key_create
    ∷ api_key_revoke ∷ []

-- `ACTION_SCOPES.get(action)`. The comprehension over `GOVERNANCE_ACTIONS` stands in the middle of
-- the dict display, and no key is given twice.
unfoldable pub action_scope : Action → Option String
unfolding mem_action
action_scope org_view = some "workflow:read"
action_scope team_view = some "workflow:read"
action_scope workflow_list = some "workflow:read"
action_scope workflow_view = some "workflow:read"
action_scope workflow_run = some "workflow:run"
action_scope workflow_run_exported = some "workflow:run"
action_scope workflow_create = some "workflow:write"
action_scope workflow_update = some "workflow:write"
action_scope workflow_delete = some "workflow:write"
action_scope workflow_export = some "workflow:write"
action_scope workflow_protect_export = some "workflow:write"
action_scope a = if mem_action a governance_actions then some "governance:denied" else none
