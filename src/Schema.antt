-- ===== src/Schema.antt =====
-- packages/authz-core/src/authz_core/schema.py: the resource types that an action applies to, the
-- attributes that the schema declares for each resource type, and the groups of the actions.
use stackai_authz_service.Prelude.{String, Bool, List, [], ◌∷◌, ◌++◌, map, if◌then◌else◌, mem_text}
use stackai_authz_service.Action.{
  Action, org_view, team_view, org_add_user, org_remove_user, org_change_role, team_create,
  role_create, role_delete, api_key_create, api_key_revoke, team_delete, team_add_member,
  team_remove_member, team_change_role, workflow_list, workflow_create, mem_action,
  governance_actions, org_administrable_actions,
}
use stackai_authz_service.Capability.{
  Capability, view, run, edit, export, protect_export, delete, manage_members, create_team,
  manage_roles, manage_api_keys, attribute,
}

-- `_RESOURCE_TYPES.get(action, ["Workflow"])`
unfoldable pub resource_types : Action → List String
resource_types org_view = "Organization" ∷ []
resource_types team_view = "Team" ∷ []
resource_types org_add_user = "Organization" ∷ []
resource_types org_remove_user = "Organization" ∷ []
resource_types org_change_role = "Organization" ∷ []
resource_types team_create = "Organization" ∷ []
resource_types role_create = "Organization" ∷ []
resource_types role_delete = "Organization" ∷ []
resource_types api_key_create = "Organization" ∷ []
resource_types api_key_revoke = "Organization" ∷ []
resource_types team_delete = "Team" ∷ []
resource_types team_add_member = "Team" ∷ []
resource_types team_remove_member = "Team" ∷ []
resource_types team_change_role = "Team" ∷ []
resource_types workflow_list = "Team" ∷ []
resource_types workflow_create = "Team" ∷ []
resource_types _ = "Workflow" ∷ []

-- A declared type of an attribute.
pub data AttrType : Type 0 where
  cap_type org_type team_type bool_type string_type : AttrType

-- `_caps`
unfoldable pub caps_of : List Capability → List (String × AttrType)
unfolding attribute
caps_of caps = map (λ c. (attribute c, cap_type)) caps

-- `_WORKFLOW_ATTRS`, `_TEAM_ATTRS`, `_ORG_ATTRS`
unfoldable pub workflow_schema : List (String × AttrType)
unfolding caps_of
workflow_schema =
    ("org", org_type)
    ∷ ("team", team_type)
    ∷ ("org_admins", cap_type)
    ∷ (caps_of (view ∷ run ∷ edit ∷ export ∷ protect_export ∷ delete ∷ [])
        ++ (("exported", bool_type)
            ∷ ("visibility", string_type)
            ∷ ("password_protected", bool_type)
            ∷ []))

unfoldable pub team_schema : List (String × AttrType)
unfolding caps_of
team_schema =
    ("org", org_type)
    ∷ ("org_admins", cap_type)
    ∷ caps_of (view ∷ edit ∷ manage_members ∷ delete ∷ [])

unfoldable pub org_schema : List (String × AttrType)
unfolding caps_of
org_schema =
    ("org", org_type)
    ∷ ("org_admins", cap_type)
    ∷ caps_of (create_team ∷ manage_roles ∷ manage_api_keys ∷ [])

-- The "memberOf" of an action in `_build_actions`.
unfoldable pub member_of : Action → List String
unfolding mem_action
member_of a =
    (if mem_action a governance_actions then "Governance" ∷ [] else [])
    ++ (if mem_action a org_administrable_actions then "OrgAdministrable" ∷ [] else [])

-- The action is declared for resources of the type.
unfoldable pub applies_to : Action → String → Bool
unfolding resource_types
applies_to a kind = mem_text kind (resource_types a)
