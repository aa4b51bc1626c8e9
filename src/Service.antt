-- ===== src/Service.antt =====
-- The routes that change the database, each with the guard that src/app/api/routers puts before it, and
-- the service as a machine that serves one request after the other.
pub mod Preserved
pub mod SuperAdmin
pub mod Administered
pub mod Known
pub mod Joined
pub mod Guarded
pub mod KeyHolders
pub mod Resolved
pub mod Scopes
pub mod Admission
pub mod Removal
pub mod TeamAdmin
use stackai_authz_service.Prelude.{ℕ, String, Bool, Option, none, some, List, [], ◌∷◌}
use stackai_authz_service.Action
use stackai_authz_service.Action.{Action}
use stackai_authz_service.Cedar.{Cedar, Policy}
use stackai_authz_service.Principal.{Principal}
use stackai_authz_service.Errors.{Result, ok, err, RequestState, fresh_state}
use stackai_authz_service.ApiKeys
use stackai_authz_service.ApiKeys.{Hasher, ApiKeyRow}
use stackai_authz_service.Deps.{ResourceSpec, workflow_spec, team_spec, org_spec, requires}
use stackai_authz_service.Store.{Store}
use stackai_authz_service.Store.Queries.{queries}
use stackai_authz_service.Memberships
use stackai_authz_service.Memberships.{after_ok}
use stackai_authz_service.Roles
use stackai_authz_service.Publishing

-- The requests, with what the body and the path give, and the values that the database, the clock and
-- the random generator give.
pub data Request : Type 0 where
  add_org_member : (org_id user_id role : String) → Request
  remove_org_member : (org_id user_id : String) → Request
  change_org_role : (org_id user_id role : String) → Request
  create_team : (org_id name id : String) → Request
  add_team_member : (team_id user_id role : String) → Request
  delete_team : (team_id : String) → Request
  remove_team_member : (team_id user_id : String) → Request
  change_team_role : (team_id user_id role : String) → Request
  create_role : (org_id name scope : String) → List String → (id : String) → Request
  create_workflow : (team_id name id : String) → Request
  update_workflow : (workflow_id name : String) → Request
  delete_workflow : (workflow_id : String) → Request
  set_workflow_export : (workflow_id visibility : String) → Request
  unset_workflow_export : (workflow_id : String) → Request
  set_workflow_export_protection :
      (workflow_id : String) → Option String → (salt : String) → Request
  create_api_key :
      (org_id name : String) → List String → Option ℕ → (id prefix secret salt : String) → Request
  revoke_api_key : (org_id key_id : String) → (now : ℕ) → Request

-- The guard of a route: its action, the kind of its resource and the resource's id in the path.
pub record Guard : Type 0 where
  pub action : Action
  pub spec : ResourceSpec
  pub params : List (String × String)

abbrev on_org : Action → String → Guard
on_org a org_id = record { action = a; spec = org_spec; params = ("org_id", org_id) ∷ [] }

abbrev on_team : Action → String → Guard
on_team a team_id = record { action = a; spec = team_spec; params = ("team_id", team_id) ∷ [] }

abbrev on_workflow : Action → String → Guard
on_workflow a workflow_id = record {
  action = a;
  spec = workflow_spec;
  params = ("workflow_id", workflow_id) ∷ [];
}

-- `Depends(requires(...))` of each route
unfoldable pub guard_of : Request → Guard
guard_of (add_org_member org_id user_id role) = on_org Action.org_add_user org_id
guard_of (remove_org_member org_id user_id) = on_org Action.org_remove_user org_id
guard_of (change_org_role org_id user_id role) = on_org Action.org_change_role org_id
guard_of (create_team org_id name id) = on_org Action.team_create org_id
guard_of (add_team_member team_id user_id role) = on_team Action.team_add_member team_id
guard_of (delete_team team_id) = on_team Action.team_delete team_id
guard_of (remove_team_member team_id user_id) = on_team Action.team_remove_member team_id
guard_of (change_team_role team_id user_id role) = on_team Action.team_change_role team_id
guard_of (create_role org_id name scope capabilities id) = on_org Action.role_create org_id
guard_of (create_workflow team_id name id) = on_team Action.workflow_create team_id
guard_of (update_workflow workflow_id name) = on_workflow Action.workflow_update workflow_id
guard_of (delete_workflow workflow_id) = on_workflow Action.workflow_delete workflow_id
guard_of (set_workflow_export workflow_id visibility) =
    on_workflow Action.workflow_export workflow_id
guard_of (unset_workflow_export workflow_id) = on_workflow Action.workflow_export workflow_id
guard_of (set_workflow_export_protection workflow_id password salt) =
    on_workflow Action.workflow_protect_export workflow_id
guard_of (create_api_key org_id name scopes expires_at id prefix secret salt) =
    on_org Action.api_key_create org_id
guard_of (revoke_api_key org_id key_id now) = on_org Action.api_key_revoke org_id

abbrev no_body : Result String → Result (Unit {0})
no_body (ok full) = ok tt
no_body (err e) = err e

-- The handler of a route, for the caller `subject`.
unfoldable pub perform : Hasher → String → Request → Store → Result (Unit {0}) × Store
unfolding Memberships.add_org_member Memberships.remove_org_member Memberships.change_org_role
    Memberships.create_team Memberships.add_team_member Memberships.delete_team
    Memberships.remove_team_member Memberships.change_team_role Roles.create_role
    Publishing.create_workflow Publishing.update_workflow Publishing.delete_workflow
    Publishing.set_workflow_export Publishing.unset_workflow_export
    Publishing.set_workflow_export_protection ApiKeys.create_api_key ApiKeys.revoke_api_key
perform hasher subject (add_org_member org_id user_id role) s =
    Memberships.add_org_member org_id user_id role s
perform hasher subject (remove_org_member org_id user_id) s =
    Memberships.remove_org_member org_id user_id s
perform hasher subject (change_org_role org_id user_id role) s =
    Memberships.change_org_role org_id user_id role s
perform hasher subject (create_team org_id name id) s =
    Memberships.create_team org_id name subject id s
perform hasher subject (add_team_member team_id user_id role) s =
    Memberships.add_team_member team_id user_id role s
perform hasher subject (delete_team team_id) s = Memberships.delete_team team_id s
perform hasher subject (remove_team_member team_id user_id) s =
    Memberships.remove_team_member team_id user_id subject s
perform hasher subject (change_team_role team_id user_id role) s =
    Memberships.change_team_role team_id user_id role subject s
perform hasher subject (create_role org_id name scope capabilities id) s =
    Roles.create_role org_id name scope capabilities id s
perform hasher subject (create_workflow team_id name id) s =
    Publishing.create_workflow team_id name subject id s
perform hasher subject (update_workflow workflow_id name) s =
    Publishing.update_workflow workflow_id name s
perform hasher subject (delete_workflow workflow_id) s = Publishing.delete_workflow workflow_id s
perform hasher subject (set_workflow_export workflow_id visibility) s =
    Publishing.set_workflow_export workflow_id visibility s
perform hasher subject (unset_workflow_export workflow_id) s =
    Publishing.unset_workflow_export workflow_id s
perform hasher subject (set_workflow_export_protection workflow_id password salt) s =
    Publishing.set_workflow_export_protection hasher workflow_id password salt s
perform hasher subject (create_api_key org_id name scopes expires_at id prefix secret salt) s =
    let (result, rows) =
      ApiKeys.create_api_key hasher subject org_id name scopes expires_at id prefix secret salt
        s.api_keys in
    (no_body result, record s { api_keys = rows })
perform hasher subject (revoke_api_key org_id key_id now) s =
    let (result, rows) = ApiKeys.revoke_api_key org_id key_id now s.api_keys in
    (result, record s { api_keys = rows })

module _ (is_authorized : Cedar) (policies : List Policy) (hasher : Hasher)
    (is_uuid : String → Bool) where
  -- The guard on the database as it is, then the handler if the guard passes. `cid` is the minted
  -- correlation id.
  unfoldable pub serve : Principal → String → Request → Store → Result (Unit {0}) × Store
  unfolding guard_of perform requires queries
  serve p cid request s =
      let g = guard_of request in
      after_ok
        (requires is_authorized policies (queries is_uuid s) g.action g.spec p cid g.params
          fresh_state).0
        s (λ u. perform hasher p.subject request s)

  -- The database after a sequence of requests, each with its caller and correlation id.
  unfoldable pub serve_all : List (Principal × String × Request) → Store → Store
  unfolding serve
  serve_all [] s = s
  serve_all ((p, cid, request) ∷ rest) s = serve_all rest (serve p cid request s).1
