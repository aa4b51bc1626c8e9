-- ===== src/Rules.antt =====
-- The access rules of the service, stated without Cedar: what the README and the comments of the
-- policy files say that each action needs.
pub mod Refinement
pub mod Slices
pub mod Environment
pub mod Decisions
pub mod Keys
use stackai_authz_service.Prelude.{
  String, Bool, true, false, ◌&&◌, ◌||◌, not, Option, none, some, mem_text, ◌==◌,
}
use stackai_authz_service.Action
use stackai_authz_service.Action.{Action, mem_action, governance_actions, action_scope}
use stackai_authz_service.Capability.{
  Capability, view, run, edit, export, protect_export, delete, manage_members, create_team,
  manage_org, manage_roles, manage_api_keys,
}
use stackai_authz_service.Entities.{
  EntityRef, ref_eq, cap_ref, WorkflowEntity, Resource, workflow, team, org,
}
use stackai_authz_service.Engine.{AuthzContext}

-- What a person needs for an action, beside being a super-admin of the organization.
pub data Need : Type 0 where
  membership : Need
  capability : Capability → Need
  publication : Need

unfoldable pub need : Action → Need
need Action.org_view = membership
need Action.team_view = capability view
need Action.workflow_view = capability view
need Action.workflow_list = capability view
need Action.workflow_run = capability run
need Action.workflow_create = capability edit
need Action.workflow_update = capability edit
need Action.workflow_export = capability export
need Action.workflow_protect_export = capability protect_export
need Action.workflow_delete = capability delete
need Action.team_delete = capability delete
need Action.team_add_member = capability manage_members
need Action.team_remove_member = capability manage_members
need Action.team_change_role = capability manage_members
need Action.team_create = capability create_team
need Action.role_create = capability manage_roles
need Action.role_delete = capability manage_roles
need Action.api_key_create = capability manage_api_keys
need Action.api_key_revoke = capability manage_api_keys
need Action.workflow_run_exported = publication
-- Only super-admins.
need Action.org_add_user = capability manage_org
need Action.org_remove_user = capability manage_org
need Action.org_change_role = capability manage_org

unfoldable pub org_of : Resource → EntityRef
org_of (workflow w) = w.org
org_of (team t) = t.org
org_of (org o) = o.ref

-- The group entity of a capability on a resource.
unfoldable pub cap_of : Resource → Capability → EntityRef
cap_of (workflow w) c = w.capabilities c
cap_of (team t) c = t.capabilities c
cap_of (org o) c = o.capabilities c

unfoldable pub admins_of : Resource → EntityRef
unfolding org_of cap_ref
admins_of e = cap_ref manage_org "org" (org_of e).id

-- A published workflow runs for whom its visibility and password let run it.
unfoldable pub runs_published : (EntityRef → Bool) → AuthzContext → Resource → Bool
runs_published member c (workflow w) =
    w.exported
    && (not w.password_protected || c.password_verified)
    && (not (w.visibility == "org_only") || member w.org)
runs_published member c _ = false

-- `member` tells of an entity whether the principal is in it.
unfoldable pub meets : (EntityRef → Bool) → AuthzContext → Resource → Need → Bool
unfolding org_of cap_of admins_of runs_published
meets member c e membership = member (org_of e) || member (admins_of e)
meets member c e (capability manage_org) = member (admins_of e)
meets member c e (capability x) = member (cap_of e x) || member (admins_of e)
meets member c e publication = runs_published member c e

abbrev pub same_org : Option String → EntityRef → Bool
same_org none o = false
same_org (some key_org) o = ref_eq o (record { kind = "Organization"; id = key_org })

abbrev scope_held : Option String → AuthzContext → Bool
scope_held none c = false
scope_held (some s) c = mem_text s c.api_key_scopes

-- An API key never governs, acts in its own organization only, and holds the action's scope.
unfoldable pub key_permits : AuthzContext → Action → Resource → Bool
unfolding org_of mem_action action_scope ref_eq
key_permits c a e =
    not (c.auth_method == "api_key")
    || (not (mem_action a governance_actions)
        && (same_org c.api_key_org_id (org_of e) && scope_held (action_scope a) c))

unfoldable pub rule : (EntityRef → Bool) → AuthzContext → Action → Resource → Bool
unfolding meets need key_permits
rule member c a e = meets member c e (need a) && key_permits c a e
