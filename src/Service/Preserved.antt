-- ===== src/Service/Preserved.antt =====
-- The properties of the database that the changes of the tables keep.
pub mod Requests
use stackai_authz_service.Prelude.{
  ℕ, String, ◌≡◌, refl, Bool, true, false, ◌&&◌, ◌||◌, not, Option, none, some, List, [], ◌∷◌, ◌++◌,
  any, keep, is_empty, mem_text, has_repeats, if◌then◌else◌, ◌==◌, Bool-cases, inl, inr, arith,
}
use stackai_authz_service.Cedar.{Cedar, Policy}
use stackai_authz_service.Principal.{Principal}
use stackai_authz_service.Errors.{Result, ok, err, fresh_state}
use stackai_authz_service.ApiKeys.{Hasher, ApiKeyRow}
use stackai_authz_service.Provider.{TeamRow}
use stackai_authz_service.Deps.{requires}
use stackai_authz_service.Store.{
  RoleRow, OrgMembership, TeamMembership, StoredWorkflow, StoredExport, Store, Outcome, done,
  api_error, role_has,
}
use stackai_authz_service.Store.Triggers.{
  is_org_membership, is_team_membership, check_org_membership_role, check_team_membership_role,
  join_default_team, insert_org_membership, insert_team_membership, insert_team,
}
use stackai_authz_service.Store.Functions
use stackai_authz_service.Store.Functions.{
  none_remains, none_remains_in_team, team_in_org, is_default_team, erase_team,
}
use stackai_authz_service.Store.Queries.{queries}
use stackai_authz_service.Store.Yields.{
  Yields, with_team_membership, with_org_membership, with_team, with_org_role, with_team_role,
  insert_team_membership-Yields, insert_org_membership-Yields, insert_team-Yields,
}
use stackai_authz_service.Violations.{call, call_bare}
use stackai_authz_service.Memberships
use stackai_authz_service.Memberships.{after_ok, team_org_id, resolve_role_id, is_org_super_admin}
use stackai_authz_service.Roles
use stackai_authz_service.Roles.{unknown_capabilities, role_clash}
use stackai_authz_service.Publishing
use stackai_authz_service.Publishing.{upsert_export, is_workflow, is_export, change}
use stackai_authz_service.Service
use stackai_authz_service.Service.{Request, guard_of, perform, serve, serve_all}

-- Each change of the tables, after the tests that the code makes before it, keeps the property.
pub record IsPreserved (P : Store → Type 0) : Type 0 where
  pub org_insert :
      (m : OrgMembership) (s : Store)
      → P s
      → check_org_membership_role s m ≡ done tt
      → any (is_org_membership m.org_id m.user_id) s.org_memberships ≡ false
      → Yields P (join_default_team m (with_org_membership m s))
  pub org_remove :
      (org_id user_id : String) (s : Store)
      → P s
      → none_remains s org_id user_id ≡ false
      → P (record s {
        team_memberships =
            keep
              (λ m. not ((m.user_id == user_id) && team_in_org s.teams org_id m.team_id))
              s.team_memberships;
        org_memberships = keep (λ m. not (is_org_membership org_id user_id m)) s.org_memberships;
      })
  pub org_role :
      (org_id user_id role_id : String) (s : Store)
      → P s
      → (not (role_has s.roles role_id "manage_org") && none_remains s org_id user_id) ≡ false
      → check_org_membership_role s
          (record { org_id = org_id; user_id = user_id; role_id = role_id })
        ≡ done tt
      → P (with_org_role org_id user_id role_id s)
  pub team_insert :
      (t : TeamRow) (created_by role_id : String) (s : Store)
      → P s
      → t.is_default ≡ false
      → any
          (λ (u : TeamRow). u.id == t.id || ((u.org_id == t.org_id) && (u.name == t.name)))
          s.teams
        ≡ false
      → check_team_membership_role
          (with_team t s)
          (record { team_id = t.id; user_id = created_by; role_id = role_id })
        ≡ done tt
      → P (
          with_team_membership
            (record { team_id = t.id; user_id = created_by; role_id = role_id })
            (with_team t s))
  pub team_update :
      (t : TeamRow) (created_by role_id : String) (s : Store)
      → P s
      → t.is_default ≡ false
      → any
          (λ (u : TeamRow). u.id == t.id || ((u.org_id == t.org_id) && (u.name == t.name)))
          s.teams
        ≡ false
      → P (with_team_role t.id created_by role_id (with_team t s))
  pub team_member_insert :
      (m : TeamMembership) (s : Store)
      → P s
      → check_team_membership_role s m ≡ done tt
      → any (is_team_membership m.team_id m.user_id) s.team_memberships ≡ false
      → P (with_team_membership m s)
  pub team_member_remove :
      (team_id user_id : String) (s : Store)
      → P s
      → is_default_team s team_id ≡ false
      → P (record s {
        team_memberships =
            keep (λ m. not (is_team_membership team_id user_id m)) s.team_memberships;
      })
  pub team_role :
      (team_id user_id role_id : String) (s : Store)
      → P s
      → check_team_membership_role s
          (record { team_id = team_id; user_id = user_id; role_id = role_id })
        ≡ done tt
      → P (with_team_role team_id user_id role_id s)
  pub team_delete :
      (team_id : String) (s : Store)
      → P s
      → is_default_team s team_id ≡ false
      → P (erase_team team_id s)
  pub role_insert :
      (id org_id name scope : String) (capabilities : List String) (s : Store)
      → P s
      → is_empty (unknown_capabilities capabilities) ≡ true
      → any (role_clash id org_id name scope) s.roles ≡ false
      → P (record s {
        roles =
            s.roles
            ++ (record {
              id = id;
              org_id = some org_id;
              name = name;
              scope = scope;
              capabilities = capabilities;
            }
                ∷ []);
      })
  pub workflow_change :
      (workflows : List StoredWorkflow) (exports : List StoredExport) (s : Store)
      → P s
      → P (record s { workflows = workflows; exports = exports })
  pub key_change : (keys : List ApiKeyRow) (s : Store) → P s → P (record s { api_keys = keys })

pub call-Yields :
    (P : Store → Type 0) (s : Store) (o : Outcome Store) → P s → Yields P o → P (call s o).1
unfolding call
call-Yields P s (done t) h k = k
call-Yields P s (api_error code message) h k = h

pub call_bare-Yields :
    (P : Store → Type 0) (s : Store) (o : Outcome Store) → P s → Yields P o → P (call_bare s o).1
unfolding call_bare
call_bare-Yields P s (done t) h k = k
call_bare-Yields P s (api_error code message) h k = h

pub after_ok-Yields :
    {A : Type 0} (P : Store → Type 0) (s : Store) (r : Result A) (k : A → Result (Unit {0}) × Store)
    → P s
    → ((a : A) → P (k a).1)
    → P (after_ok r s k).1
after_ok-Yields P s (err e) k h l = h
after_ok-Yields P s (ok a) k h l = l a

-- The same, with the equation of the step that did not raise.
pub after_ok-Yields_known :
    {A : Type 0} (P : Store → Type 0) (s : Store) (r : Result A) (k : A → Result (Unit {0}) × Store)
    → P s
    → ((a : A) → r ≡ ok a → P (k a).1)
    → P (after_ok r s k).1
after_ok-Yields_known P s (err e) k h l = h
after_ok-Yields_known P s (ok a) k h l = l a refl

pub if-second :
    (P : Store → Type 0) (b : Bool) (x y : Result (Unit {0}) × Store)
    → (b ≡ true → P x.1)
    → (b ≡ false → P y.1)
    → P (if b then x else y).1
if-second P true x y h k = h refl
if-second P false x y h k = k refl
