-- ===== src/Fixtures.antt =====
-- packages/authz-core/tests/conftest.py and the case lists of
-- packages/authz-core/tests/test_policy_matrix.py: the slices that the command line and the decision
-- matrix are run on. A Python set is a list read through membership.
pub mod Decided
use stackai_authz_service.Prelude.{
  String, Bool, true, false, List, [], ◌∷◌, ◌++◌, map, lookup, Option, none, some, if◌then◌else◌,
  ◌==◌,
}
use stackai_authz_service.Action
use stackai_authz_service.Action.{Action}
use stackai_authz_service.Capability
use stackai_authz_service.Capability.{Capability, all_capabilities}
use stackai_authz_service.Entities.{
  EntityRef, cap_ref, WorkflowEntity, TeamEntity, workflow, team, EntitySlice,
}

-- `ORG`, `TEAM` and the workflow `WF`
abbrev pub org_ref : EntityRef
org_ref = record { kind = "Organization"; id = "org-1" }

abbrev pub team_ref : EntityRef
team_ref = record { kind = "Team"; id = "team-1" }

abbrev pub workflow_ref : EntityRef
workflow_ref = record { kind = "Workflow"; id = "wf-1" }

-- `ROLE_CAPS`
abbrev pub role_table : List (String × List Capability)
role_table =
    ("viewer", Capability.view ∷ Capability.run ∷ [])
    ∷ ("editor", Capability.view ∷ Capability.run ∷ Capability.edit ∷ Capability.export ∷ [])
    ∷ (
      "admin",
      Capability.view ∷ Capability.run ∷ Capability.edit ∷ Capability.export
          ∷ Capability.protect_export ∷ Capability.delete ∷ Capability.manage_members ∷ [],
    )
    ∷ ("auditor", Capability.view ∷ [])
    ∷ ("super_admin", [])
    ∷ ("outsider", [])
    ∷ ("anonymous", [])
    ∷ []

abbrev or_empty : Option (List Capability) → List Capability
or_empty none = []
or_empty (some caps) = caps

-- `ROLE_CAPS.get(role, set())`
unfoldable pub role_caps : String → List Capability
role_caps role = or_empty (lookup role role_table)

-- The capability entities of the fixture's principal.
unfoldable pub principal_caps : String → EntityRef → List EntityRef
unfolding cap_ref
principal_caps role t =
    map (λ c. cap_ref c "team" t.id) (role_caps role)
    ++ (if role == "super_admin" then cap_ref Capability.manage_org "org" org_ref.id ∷ [] else [])

abbrev pub fixture_workflow :
    (exported : Bool) (visibility : String) (password_protected : Bool) → EntityRef → WorkflowEntity
fixture_workflow exported visibility password_protected t = record {
  ref = workflow_ref;
  org = org_ref;
  team = t;
  capabilities = λ c. cap_ref c "team" t.id;
  exported = exported;
  visibility = visibility;
  password_protected = password_protected;
}

abbrev pub fixture_team : EntityRef → TeamEntity
fixture_team t = record { ref = t; org = org_ref; capabilities = λ c. cap_ref c "team" t.id }

-- `build_slice`
unfoldable pub build_slice :
    (role : String) (exported : Bool) (visibility : String) (password_protected in_org : Bool)
    → EntityRef
    → EntityRef × EntitySlice
unfolding principal_caps cap_ref
build_slice role exported visibility password_protected in_org t =
    let principal : EntityRef = record { kind = "User"; id = role } in
    (
      principal,
      record {
        principal = record {
          ref = principal;
          capabilities = principal_caps role t;
          orgs = if in_org then org_ref ∷ [] else [];
        };
        resources =
            workflow (fixture_workflow exported visibility password_protected t)
            ∷ team (fixture_team t)
            ∷ [];
        caps =
            principal_caps role t
            ++ (map (λ c. cap_ref c "team" team_ref.id) all_capabilities
                ++ (cap_ref Capability.manage_org "org" org_ref.id ∷ []));
      },
    )

pub record RoleCase : Type 0 where
  pub role : String
  pub action : Action
  pub resource : EntityRef
  pub expected : Bool

pub record ExportCase : Type 0 where
  pub exported : Bool
  pub visibility : String
  pub protected : Bool
  pub verified : Bool
  pub in_org : Bool
  pub expected : Bool
  pub why : String

pub record KeyCase : Type 0 where
  pub action : Action
  pub scopes : List String
  pub expected : Bool
  pub why : String

abbrev on_workflow : String → Action → Bool → RoleCase
on_workflow role action expected = record {
  role = role;
  action = action;
  resource = workflow_ref;
  expected = expected;
}

abbrev on_team : String → Action → Bool → RoleCase
on_team role action expected = record {
  role = role;
  action = action;
  resource = team_ref;
  expected = expected;
}

-- `MATRIX`
abbrev pub matrix : List RoleCase
matrix =
    on_workflow "viewer" Action.workflow_view true
    ∷ on_workflow "viewer" Action.workflow_run true
    ∷ on_workflow "viewer" Action.workflow_update false
    ∷ on_workflow "viewer" Action.workflow_export false
    ∷ on_workflow "viewer" Action.workflow_delete false
    ∷ on_team "viewer" Action.team_add_member false
    ∷ on_workflow "editor" Action.workflow_view true
    ∷ on_workflow "editor" Action.workflow_run true
    ∷ on_workflow "editor" Action.workflow_update true
    ∷ on_team "editor" Action.workflow_create true
    ∷ on_workflow "editor" Action.workflow_export true
    ∷ on_workflow "editor" Action.workflow_protect_export false
    ∷ on_workflow "editor" Action.workflow_delete false
    ∷ on_team "editor" Action.team_add_member false
    ∷ on_workflow "admin" Action.workflow_view true
    ∷ on_workflow "admin" Action.workflow_update true
    ∷ on_workflow "admin" Action.workflow_export true
    ∷ on_workflow "admin" Action.workflow_protect_export true
    ∷ on_workflow "admin" Action.workflow_delete true
    ∷ on_team "admin" Action.team_add_member true
    ∷ on_team "admin" Action.team_delete true
    ∷ on_workflow "auditor" Action.workflow_view true
    ∷ on_workflow "auditor" Action.workflow_run false
    ∷ on_workflow "auditor" Action.workflow_update false
    ∷ on_workflow "super_admin" Action.workflow_view true
    ∷ on_workflow "super_admin" Action.workflow_update true
    ∷ on_workflow "super_admin" Action.workflow_delete true
    ∷ on_team "super_admin" Action.team_add_member true
    ∷ on_team "super_admin" Action.team_delete true
    ∷ on_workflow "outsider" Action.workflow_view false
    ∷ on_workflow "outsider" Action.workflow_run false
    ∷ on_workflow "outsider" Action.workflow_update false
    ∷ on_workflow "anonymous" Action.workflow_view false
    ∷ on_workflow "anonymous" Action.workflow_run false
    ∷ []

abbrev export_case :
    (exported : Bool) (visibility : String) (protected verified in_org expected : Bool)
    (why : String)
    → ExportCase
export_case exported visibility protected verified in_org expected why = record {
  exported = exported;
  visibility = visibility;
  protected = protected;
  verified = verified;
  in_org = in_org;
  expected = expected;
  why = why;
}

-- `EXPORT_MATRIX`
abbrev pub export_matrix : List ExportCase
export_matrix =
    export_case false "public" false false false false "must-be-exported"
    ∷ export_case true "public" false false false true "public flow, anyone"
    ∷ export_case true "public" true false false false "password required"
    ∷ export_case true "public" true true false true "password supplied"
    ∷ export_case true "org_only" false false false false "not an org member"
    ∷ export_case true "org_only" false false true true "org member"
    ∷ export_case true "org_only" true false true false "org member, no password"
    ∷ export_case true "org_only" true true true true "org member with password"
    ∷ []

abbrev key_case : Action → String → Bool → String → KeyCase
key_case action scope expected why = record {
  action = action;
  scopes = scope ∷ [];
  expected = expected;
  why = why;
}

-- `API_KEY_MATRIX`
abbrev pub key_matrix : List KeyCase
key_matrix =
    key_case Action.workflow_run "workflow:run" true "in scope"
    ∷ key_case Action.workflow_view "workflow:run" false "scope missing"
    ∷ key_case Action.workflow_view "workflow:read" true "in scope"
    ∷ key_case Action.team_delete "workflow:run" false "governance forbidden"
    ∷ key_case Action.team_add_member "workflow:run" false "governance forbidden"
    ∷ key_case Action.org_remove_user "workflow:run" false "governance forbidden"
    ∷ []
