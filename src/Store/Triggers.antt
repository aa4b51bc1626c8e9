-- ===== src/Store/Triggers.antt =====
-- supabase/migrations/20260820000200_triggers.sql: the checks and side effects of an insertion or an
-- update. PostgreSQL's own errors carry its codes, and no text that the service reads.
use stackai_authz_service.Prelude.{
  String, Bool, map, true, false, ◌&&◌, ◌||◌, Option, none, some, List, [], ◌∷◌, ◌++◌, any, find,
  mem_text, if◌then◌else◌, ◌==◌,
}
use stackai_authz_service.Provider.{TeamRow}
use stackai_authz_service.Store.{
  RoleRow, OrgMembership, TeamMembership, Store, Outcome, done, api_error, and_then, find_role,
  find_team,
}

abbrev pub belongs : Option String → String → Bool
belongs none org_id = true
belongs (some o) org_id = o == org_id

-- Whether a role may stand in a membership of a scope in an organization.
abbrev pub role_fits : String → String → RoleRow → Bool
role_fits scope org_id r = (r.scope == scope) && belongs r.org_id org_id

-- `check_org_membership_role`, and the foreign key of `role_id`, which is checked after the triggers.
unfoldable pub check_org_membership_role : Store → OrgMembership → Outcome (Unit {0})
unfolding find_role
check_org_membership_role s m = elim (find_role m.role_id s.roles) [
  | none ↦ api_error "23503" ""
  | some r ↦ if role_fits "org" m.org_id r then done tt else api_error "P0001" ""
]

abbrev org_of_team : Option TeamRow → Option String
org_of_team none = none
org_of_team (some t) = some t.org_id

-- `check_team_membership_role`, and the foreign keys of `team_id` and `role_id`
unfoldable pub check_team_membership_role : Store → TeamMembership → Outcome (Unit {0})
unfolding find_role find_team
check_team_membership_role s m = elim (find_role m.role_id s.roles) [
  | none ↦ api_error "23503" ""
  | some r ↦ elim (find_team m.team_id s.teams) [
    | none ↦ if r.scope == "team" then api_error "23503" "" else api_error "P0001" ""
    | some t ↦ if role_fits "team" t.org_id r then done tt else api_error "P0001" ""
  ]
]

abbrev pub is_team_membership : String → String → TeamMembership → Bool
is_team_membership team_id user_id m = (m.team_id == team_id) && (m.user_id == user_id)

abbrev pub set_team_role : String → String → String → TeamMembership → TeamMembership
set_team_role team_id user_id role_id m =
    if is_team_membership team_id user_id m then record m { role_id = role_id } else m

abbrev pub is_org_membership : String → String → OrgMembership → Bool
is_org_membership org_id user_id m = (m.org_id == org_id) && (m.user_id == user_id)

-- An insertion into `team_memberships`; `on_conflict` is what a row with the key leads to.
unfoldable pub insert_team_membership : Outcome Store → TeamMembership → Store → Outcome Store
unfolding check_team_membership_role
insert_team_membership on_conflict m s = and_then (check_team_membership_role s m) (λ u.
    if any (is_team_membership m.team_id m.user_id) s.team_memberships
    then on_conflict
    else if mem_text m.user_id s.profiles
    then done (record s { team_memberships = s.team_memberships ++ (m ∷ []) })
    else api_error "23503" "")

abbrev is_builtin : String → String → RoleRow → Bool
is_builtin name scope r =
    (r.name == name) && (r.scope == scope) && (elim r.org_id [ none ↦ true | some o ↦ false ])

-- The built-in role of a name and a scope.
unfoldable pub find_builtin : String → String → List RoleRow → Option RoleRow
find_builtin name scope roles = find (is_builtin name scope) roles

abbrev pub is_default_of : String → TeamRow → Bool
is_default_of org_id t = (t.org_id == org_id) && t.is_default

-- `join_default_team`, for a membership that has been inserted
unfoldable pub join_default_team : OrgMembership → Store → Outcome Store
unfolding insert_team_membership find_builtin
join_default_team m s = elim (find (is_default_of m.org_id) s.teams) [
  | none ↦ done s
  | some t ↦ elim (find_builtin "viewer" "team" s.roles) [
    | none ↦ api_error "23502" ""
    | some r ↦
        insert_team_membership (done s)
          (record { team_id = t.id; user_id = m.user_id; role_id = r.id }) s
  ]
]

-- An insertion into `org_memberships`
unfoldable pub insert_org_membership : OrgMembership → Store → Outcome Store
unfolding check_org_membership_role join_default_team
insert_org_membership m s = and_then (check_org_membership_role s m) (λ u.
    if any (is_org_membership m.org_id m.user_id) s.org_memberships
    then api_error "23505" ""
    else if mem_text m.org_id s.organizations && mem_text m.user_id s.profiles
    then join_default_team m (record s { org_memberships = s.org_memberships ++ (m ∷ []) })
    else api_error "23503" "")

-- `team_creator_is_admin`, for a team that has been inserted by a user
unfoldable pub team_creator_is_admin : TeamRow → String → Store → Outcome Store
unfolding insert_team_membership find_builtin
team_creator_is_admin t created_by s = elim (find_builtin "admin" "team" s.roles) [
  | none ↦ api_error "23502" ""
  | some r ↦
      insert_team_membership
        (done (record s {
          team_memberships = map (set_team_role t.id created_by r.id) s.team_memberships;
        }))
        (record { team_id = t.id; user_id = created_by; role_id = r.id }) s
]

-- An insertion into `teams` by a user
unfoldable pub insert_team : TeamRow → String → Store → Outcome Store
unfolding team_creator_is_admin
insert_team t created_by s =
    if any (λ (u : TeamRow). u.id == t.id || ((u.org_id == t.org_id) && (u.name == t.name))) s.teams
    then api_error "23505" ""
    else if mem_text t.org_id s.organizations && mem_text created_by s.profiles
    then team_creator_is_admin t created_by (record s { teams = s.teams ++ (t ∷ []) })
    else api_error "23503" ""
