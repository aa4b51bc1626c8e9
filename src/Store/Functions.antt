-- ===== src/Store/Functions.antt =====
-- supabase/migrations/20260820000400_invariants.sql: the functions that count and write in one
-- transaction. The advisory locks make the calls of one organization run one after the other, as the
-- steps of the model do.
use stackai_authz_service.Prelude.{
  String, Bool, false, ◌&&◌, not, none, some, List, map, any, keep, length, eqb, if◌then◌else◌,
  ◌==◌,
}
use stackai_authz_service.Provider.{TeamRow}
use stackai_authz_service.Store.{
  RoleRow, OrgMembership, TeamMembership, StoredWorkflow, StoredExport, Store, Outcome, done,
  api_error, and_then, find_team, role_has,
}
use stackai_authz_service.Store.Triggers.{
  is_team_membership, set_team_role, is_org_membership, check_org_membership_role,
  check_team_membership_role,
}

-- A membership of the organization whose role may manage it.
unfoldable pub is_manager : List RoleRow → String → OrgMembership → Bool
unfolding role_has
is_manager roles org_id m = (m.org_id == org_id) && role_has roles m.role_id "manage_org"

unfoldable pub is_team_manager : List RoleRow → String → TeamMembership → Bool
unfolding role_has
is_team_manager roles team_id m =
    (m.team_id == team_id) && role_has roles m.role_id "manage_members"

-- Whether no other member manages the organization: `remaining = 0`
unfoldable pub none_remains : Store → String → String → Bool
unfolding is_manager
none_remains s org_id user_id =
    eqb
      (length
        (keep (λ m. is_manager s.roles org_id m && not (m.user_id == user_id)) s.org_memberships))
      0

unfoldable pub none_remains_in_team : Store → String → String → Bool
unfolding is_team_manager
none_remains_in_team s team_id user_id =
    eqb
      (length (
        keep (λ m. is_team_manager s.roles team_id m && not (m.user_id == user_id))
          s.team_memberships))
      0

unfoldable pub team_in_org : List TeamRow → String → String → Bool
team_in_org teams org_id team_id = any (λ t. (t.id == team_id) && (t.org_id == org_id)) teams

-- `remove_org_member`
unfoldable pub remove_org_member : String → String → Store → Outcome Store
unfolding none_remains team_in_org
remove_org_member org_id user_id s =
    if none_remains s org_id user_id
    then api_error "ZA001"
        "Cannot remove the last super-admin: the organization would become permanently unmanageable."
    else done (record s {
      team_memberships =
          keep (λ m. not ((m.user_id == user_id) && team_in_org s.teams org_id m.team_id))
            s.team_memberships;
      org_memberships = keep (λ m. not (is_org_membership org_id user_id m)) s.org_memberships;
    })

abbrev pub set_org_role : String → String → String → OrgMembership → OrgMembership
set_org_role org_id user_id role_id m =
    if is_org_membership org_id user_id m then record m { role_id = role_id } else m

-- The update of `change_org_role`: the trigger looks at the row that it changes, if there is one.
unfoldable pub update_org_role : String → String → String → Store → Outcome Store
unfolding check_org_membership_role
update_org_role org_id user_id role_id s =
    if any (is_org_membership org_id user_id) s.org_memberships
    then and_then
        (check_org_membership_role s
          (record { org_id = org_id; user_id = user_id; role_id = role_id }))
        (λ u. done (record s {
          org_memberships = map (set_org_role org_id user_id role_id) s.org_memberships;
        }))
    else done s

-- `change_org_role`
unfoldable pub change_org_role : String → String → String → Store → Outcome Store
unfolding none_remains role_has update_org_role
change_org_role org_id user_id role_id s =
    if not (role_has s.roles role_id "manage_org") && none_remains s org_id user_id
    then api_error "ZA001"
        "Cannot demote the last super-admin: the organization would become permanently unmanageable."
    else update_org_role org_id user_id role_id s

-- `is_default` of a team; null of a missing one is as good as false.
unfoldable pub is_default_team : Store → String → Bool
unfolding find_team
is_default_team s team_id = elim (find_team team_id s.teams) [
  | none ↦ false
  | some t ↦ t.is_default
]

-- `remove_team_member`
unfoldable pub remove_team_member : String → String → Bool → Store → Outcome Store
unfolding is_default_team none_remains_in_team
remove_team_member team_id user_id actor_is_super_admin s =
    if is_default_team s team_id
    then api_error "ZA003"
        "Members cannot leave the default team while they belong to the organization."
    else if not actor_is_super_admin && none_remains_in_team s team_id user_id
    then api_error "ZA002"
        "Cannot remove the last team admin. An organization super-admin can perform this action."
    else done (record s {
      team_memberships = keep (λ m. not (is_team_membership team_id user_id m)) s.team_memberships;
    })

unfoldable pub update_team_role : String → String → String → Store → Outcome Store
unfolding check_team_membership_role
update_team_role team_id user_id role_id s =
    if any (is_team_membership team_id user_id) s.team_memberships
    then and_then
        (check_team_membership_role s
          (record { team_id = team_id; user_id = user_id; role_id = role_id }))
        (λ u. done (record s {
          team_memberships = map (set_team_role team_id user_id role_id) s.team_memberships;
        }))
    else done s

-- `change_team_role`
unfoldable pub change_team_role : String → String → String → Bool → Store → Outcome Store
unfolding role_has none_remains_in_team update_team_role
change_team_role team_id user_id role_id actor_is_super_admin s =
    if not (role_has s.roles role_id "manage_members")
      && not actor_is_super_admin
      && none_remains_in_team s team_id user_id
    then api_error "ZA002"
        "Cannot demote the last team admin. An organization super-admin can perform this action."
    else update_team_role team_id user_id role_id s

abbrev of_team : String → StoredWorkflow → Bool
of_team team_id w = w.team_id == team_id

-- The deletion of a team, with what references it on delete cascade.
unfoldable pub erase_team : String → Store → Store
erase_team team_id s = record s {
  teams = keep (λ t. not (t.id == team_id)) s.teams;
  team_memberships = keep (λ m. not (m.team_id == team_id)) s.team_memberships;
  workflows = keep (λ w. not (of_team team_id w)) s.workflows;
  exports =
      keep
        (λ (e : StoredExport).
          not (any (λ w. of_team team_id w && (w.id == e.workflow_id)) s.workflows))
        s.exports;
}

-- `delete_team`
unfoldable pub delete_team : String → Store → Outcome Store
unfolding is_default_team erase_team
delete_team team_id s =
    if is_default_team s team_id
    then api_error "ZA003"
        "The default team holds organization-level shared resources and cannot be deleted."
    else done (erase_team team_id s)
