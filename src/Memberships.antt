-- ===== src/Memberships.antt =====
-- src/app/api/routers/orgs.py, teams.py and src/app/infra/lookups.py: the handlers that change
-- memberships and teams, behind their guards. The bodies that repeat the request are left out.
pub mod Resolution
use stackai_authz_service.Prelude.{
  String, Bool, false, ◌&&◌, Option, none, some, List, [], ◌∷◌, keep, find, ◌==◌,
}
use stackai_authz_service.Errors.{Result, ok, err, role_not_found, crash}
use stackai_authz_service.Provider.{TeamRow}
use stackai_authz_service.Store.{RoleRow, TeamMembership, Store, find_role, find_team, grants}
use stackai_authz_service.Store.Triggers.{
  belongs, is_org_membership, insert_org_membership, insert_team_membership, insert_team,
}
use stackai_authz_service.Store.Functions
use stackai_authz_service.Store.{api_error}
use stackai_authz_service.Violations.{call, call_bare}

abbrev pub is_candidate : String → String → String → RoleRow → Bool
is_candidate scope org_id name r = (r.scope == scope) && (r.name == name) && belongs r.org_id org_id

abbrev pub is_own : String → RoleRow → Bool
is_own org_id r = elim r.org_id [ none ↦ false | some o ↦ o == org_id ]

abbrev own_or_first : Option RoleRow → RoleRow → RoleRow
own_or_first none first = first
own_or_first (some own) first = own

abbrev choose : String → String → List RoleRow → Result String
choose org_id name [] = err (role_not_found name)
choose org_id name (r ∷ rows) = ok (own_or_first (find (is_own org_id) (r ∷ rows)) r).id

-- `_resolve_org_role_id` for the scope "org", `_resolve_team_role_id` for the scope "team"
unfoldable pub resolve_role_id : String → Store → String → String → Result String
resolve_role_id scope s org_id name =
    choose org_id name (keep (is_candidate scope org_id name) s.roles)

-- `team_org_id`; `.single()` raises on a missing team.
unfoldable pub team_org_id : Store → String → Result String
unfolding find_team
team_org_id s team_id = elim (find_team team_id s.teams) [ none ↦ err crash | some t ↦ ok t.org_id ]

-- `_is_org_super_admin`
unfoldable pub is_org_super_admin : Store → String → String → Bool
unfolding find_role
is_org_super_admin s org_id user_id =
    elim (find (is_org_membership org_id user_id) s.org_memberships) [
      | none ↦ false
      | some m ↦ grants (find_role m.role_id s.roles) "manage_org"
    ]

-- A step that may raise before the database is called.
abbrev pub after_ok {ℓ} :
    {A : Type ℓ} → Result A → Store → (A → Result (Unit {0}) × Store) → Result (Unit {0}) × Store
after_ok (err e) s k = (err e, s)
after_ok (ok a) s k = k a

-- `add_org_member`
unfoldable pub add_org_member : String → String → String → Store → Result (Unit {0}) × Store
unfolding resolve_role_id insert_org_membership call_bare
add_org_member org_id user_id role s = after_ok (resolve_role_id "org" s org_id role) s (λ role_id.
    call_bare s
      (insert_org_membership (record { org_id = org_id; user_id = user_id; role_id = role_id }) s))

-- `remove_org_member`
unfoldable pub remove_org_member : String → String → Store → Result (Unit {0}) × Store
unfolding call
remove_org_member org_id user_id s = call s (Functions.remove_org_member org_id user_id s)

-- `change_org_role`
unfoldable pub change_org_role : String → String → String → Store → Result (Unit {0}) × Store
unfolding resolve_role_id call
change_org_role org_id user_id role s =
    after_ok (resolve_role_id "org" s org_id role) s
      (λ role_id. call s (Functions.change_org_role org_id user_id role_id s))

-- `create_team`; `id` is the one that the database gives.
unfoldable pub create_team : String → String → String → String → Store → Result (Unit {0}) × Store
unfolding insert_team call_bare
create_team org_id name subject id s =
    call_bare s
      (insert_team (record { id = id; org_id = org_id; name = name; is_default = false }) subject s)

-- `add_team_member`
unfoldable pub add_team_member : String → String → String → Store → Result (Unit {0}) × Store
unfolding team_org_id resolve_role_id insert_team_membership call_bare
add_team_member team_id user_id role s = after_ok (team_org_id s team_id) s (λ org_id.
    after_ok (resolve_role_id "team" s org_id role) s (λ role_id. call_bare s (
      insert_team_membership (api_error "23505" "")
        (record { team_id = team_id; user_id = user_id; role_id = role_id }) s)))

-- `delete_team`
unfoldable pub delete_team : String → Store → Result (Unit {0}) × Store
unfolding call
delete_team team_id s = call s (Functions.delete_team team_id s)

-- `remove_team_member`, for the caller `subject`
unfoldable pub remove_team_member : String → String → String → Store → Result (Unit {0}) × Store
unfolding team_org_id is_org_super_admin call
remove_team_member team_id user_id subject s = after_ok (team_org_id s team_id) s (λ org_id.
    call s (Functions.remove_team_member team_id user_id (is_org_super_admin s org_id subject) s))

-- `change_team_role`, for the caller `subject`
unfoldable pub change_team_role :
    String → String → String → String → Store → Result (Unit {0}) × Store
unfolding team_org_id resolve_role_id is_org_super_admin call
change_team_role team_id user_id role subject s = after_ok (team_org_id s team_id) s (λ org_id.
    after_ok (resolve_role_id "team" s org_id role) s (λ role_id.
      call s (
        Functions.change_team_role team_id user_id role_id (is_org_super_admin s org_id subject)
          s)))

pub record TeamMembershipRead : Type 0 where
  pub team_id : String
  pub team_name : String
  pub org_id : String
  pub role : String
  pub is_default : Bool

abbrev read : TeamMembership → Option TeamRow → Option RoleRow → Option TeamMembershipRead
read m none r = none
read m (some t) none = none
read m (some t) (some r) = some (record {
  team_id = m.team_id;
  team_name = t.name;
  org_id = t.org_id;
  role = r.name;
  is_default = t.is_default;
})

abbrev pub read_all : Store → List TeamMembership → Result (List TeamMembershipRead)
unfolding find_team find_role
read_all s [] = ok []
read_all s (m ∷ ms) = elim (read m (find_team m.team_id s.teams) (find_role m.role_id s.roles)) [
  | none ↦ err crash
  | some row ↦ elim (read_all s ms) [ err e ↦ err e | ok rows ↦ ok (row ∷ rows) ]
]

-- `list_my_teams`; a membership without its team or its role, which the foreign keys rule out, raises.
unfoldable pub list_my_teams : String → Store → Result (List TeamMembershipRead)
list_my_teams subject s = read_all s (keep (λ m. m.user_id == subject) s.team_memberships)

-- `list_org_teams`; `by_name` is the order that the query asks for.
unfoldable pub list_org_teams : (List TeamRow → List TeamRow) → String → Store → List TeamRow
list_org_teams by_name org_id s = by_name (keep (λ (t : TeamRow). t.org_id == org_id) s.teams)
