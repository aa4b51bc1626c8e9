-- ===== src/Service/Resolved.antt =====
-- The ids of the roles, through the requests, and the triggers on memberships.
use stackai_authz_service.Prelude.{
  String, ◌≡◌, subst, Bool, List, AreDistinct, append-AreDistinct, any_none, ◌==◌, arith,
}
use stackai_authz_service.Cedar.{Cedar, Policy}
use stackai_authz_service.Principal.{Principal}
use stackai_authz_service.ApiKeys.{Hasher}
use stackai_authz_service.Errors.{ok}
use stackai_authz_service.Store.{RoleRow, Store, done}
use stackai_authz_service.Store.Triggers.{check_org_membership_role, check_team_membership_role}
use stackai_authz_service.Store.Functions.{erase_team}
use stackai_authz_service.Store.Yields.{with_org_membership, join_default_team-Yields}
use stackai_authz_service.Memberships.{resolve_role_id, team_org_id}
use stackai_authz_service.Memberships.Resolution.{role_key, check-resolve_role_id}
use stackai_authz_service.Service.{Request, serve_all}
use stackai_authz_service.Service.Preserved.{IsPreserved}
use stackai_authz_service.Service.Preserved.Requests.{serve_all-kept}

-- The id is the key of `roles`.
abbrev pub HasRoleKeys : Store → Type 0
HasRoleKeys s = AreDistinct role_key s.roles

HasRoleKeys-IsPreserved : IsPreserved HasRoleKeys
unfolding erase_team
HasRoleKeys-IsPreserved = record {
  org_insert = λ m s h fits absent.
      join_default_team-Yields HasRoleKeys m (with_org_membership m s) (λ e. h) (λ t e there. h)
        (λ t role_id e fits. h);
  org_remove = λ other user_id s h more. h;
  org_role = λ other user_id role_id s h more fits. h;
  team_insert = λ t created_by role_id s h default new fits. h;
  team_update = λ t created_by role_id s h plain new. h;
  team_member_insert = λ m s h fits absent. h;
  team_member_remove = λ team_id user_id s h other. h;
  team_role = λ team_id user_id role_id s h fits. h;
  team_delete = λ team_id s h other. h;
  role_insert = λ id o name scope capabilities s h known new.
      append-AreDistinct role_key s.roles _ h
        (any_none (λ (r : RoleRow). r.id == id) _ s.roles (λ r same. ground arith) new);
  workflow_change = λ workflows exports s h. h;
  key_change = λ keys s h. h;
}

-- Where the ids of the roles are distinct, they stay so after every sequence of requests, and the
-- triggers on memberships never reject a role that the service then finds by its name, neither in an
-- organization nor in a team of it.
pub check-serve_all :
    (is_authorized : Cedar) (policies : List Policy) (hasher : Hasher) (is_uuid : String → Bool)
    (qs : List (Principal × String × Request)) (s t : Store)
    (org_id team_id user_id org_name team_name org_role team_role : String)
    → HasRoleKeys s
    → serve_all is_authorized policies hasher is_uuid qs s ≡ t
    → resolve_role_id "org" t org_id org_name ≡ ok org_role
    → team_org_id t team_id ≡ ok org_id
    → resolve_role_id "team" t org_id team_name ≡ ok team_role
    → HasRoleKeys t
      × (check_org_membership_role t
            (record { org_id = org_id; user_id = user_id; role_id = org_role })
          ≡ done tt)
      × (check_team_membership_role t
            (record { team_id = team_id; user_id = user_id; role_id = team_role })
          ≡ done tt)
check-serve_all is_authorized policies hasher is_uuid qs s t org_id team_id user_id org_name
      team_name org_role team_role h after by_org there by_team =
    let keys = subst HasRoleKeys after (
      serve_all-kept HasRoleKeys HasRoleKeys-IsPreserved is_authorized policies hasher is_uuid qs s
        h) in
    let (in_org, in_team) =
      check-resolve_role_id t keys org_id team_id user_id org_name team_name org_role team_role
        by_org there by_team in
    (keys, in_org, in_team)
