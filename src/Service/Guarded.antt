-- ===== src/Service/Guarded.antt =====
-- The service against the access rules: which requests change the database.
use stackai_authz_service.Prelude.{
  ℕ, String, ◌≡◌, refl, sym, ◌∙◌, ap, subst, Bool, true, Option, none, some, [], ◌∷◌, if◌then◌else◌,
}
use stackai_authz_service.Action.{Action}
use stackai_authz_service.Entities.{EntityRef, EntitySlice, find_resource}
use stackai_authz_service.Schema.{applies_to}
use stackai_authz_service.Cedar.{Cedar, IsCedar, IsPlain}
use stackai_authz_service.Policies.{load_policies}
use stackai_authz_service.Rules.Environment.{found-kind}
use stackai_authz_service.Provider.{Memo, slice_for}
use stackai_authz_service.Provider.Fetched.{slice_for-IsSlice}
use stackai_authz_service.Principal.{Principal, principal_ref, is_anonymous}
use stackai_authz_service.Errors.{Result, ok, err, fresh_state, error_status}
use stackai_authz_service.ApiKeys.{Hasher}
use stackai_authz_service.Deps.{resolve, build_context, requires}
use stackai_authz_service.Deps.Requires.{guard_status, requires-status}
use stackai_authz_service.Memberships.{after_ok}
use stackai_authz_service.Store.{Store}
use stackai_authz_service.Store.Queries.{queries}
use stackai_authz_service.Service
use stackai_authz_service.Service.{Request, guard_of, perform, serve}
use stackai_authz_service.Service.Known.{AreKnown, slice_for-known}

-- The resource that the path of a request names.
unfoldable pub target : Request → EntityRef
target (Service.add_org_member org_id user_id role) = record { kind = "Organization"; id = org_id }
target (Service.remove_org_member org_id user_id) = record { kind = "Organization"; id = org_id }
target (Service.change_org_role org_id user_id role) = record { kind = "Organization"; id = org_id }
target (Service.create_team org_id name id) = record { kind = "Organization"; id = org_id }
target (Service.add_team_member team_id user_id role) = record { kind = "Team"; id = team_id }
target (Service.delete_team team_id) = record { kind = "Team"; id = team_id }
target (Service.remove_team_member team_id user_id) = record { kind = "Team"; id = team_id }
target (Service.change_team_role team_id user_id role) = record { kind = "Team"; id = team_id }
target (Service.create_role org_id name scope capabilities id) = record {
  kind = "Organization";
  id = org_id;
}
target (Service.create_workflow team_id name id) = record { kind = "Team"; id = team_id }
target (Service.update_workflow workflow_id name) = record { kind = "Workflow"; id = workflow_id }
target (Service.delete_workflow workflow_id) = record { kind = "Workflow"; id = workflow_id }
target (Service.set_workflow_export workflow_id visibility) = record {
  kind = "Workflow";
  id = workflow_id;
}
target (Service.unset_workflow_export workflow_id) = record { kind = "Workflow"; id = workflow_id }
target (Service.set_workflow_export_protection workflow_id password salt) = record {
  kind = "Workflow";
  id = workflow_id;
}
target (Service.create_api_key org_id name scopes expires_at id prefix secret salt) = record {
  kind = "Organization";
  id = org_id;
}
target (Service.revoke_api_key org_id key_id now) = record { kind = "Organization"; id = org_id }

-- The action that the rules are asked about for a request.
unfoldable pub needs : Request → Action
needs (Service.add_org_member org_id user_id role) = Action.org_add_user
needs (Service.remove_org_member org_id user_id) = Action.org_remove_user
needs (Service.change_org_role org_id user_id role) = Action.org_change_role
needs (Service.create_team org_id name id) = Action.team_create
needs (Service.add_team_member team_id user_id role) = Action.team_add_member
needs (Service.delete_team team_id) = Action.team_delete
needs (Service.remove_team_member team_id user_id) = Action.team_remove_member
needs (Service.change_team_role team_id user_id role) = Action.team_change_role
needs (Service.create_role org_id name scope capabilities id) = Action.role_create
needs (Service.create_workflow team_id name id) = Action.workflow_create
needs (Service.update_workflow workflow_id name) = Action.workflow_update
needs (Service.delete_workflow workflow_id) = Action.workflow_delete
needs (Service.set_workflow_export workflow_id visibility) = Action.workflow_export
needs (Service.unset_workflow_export workflow_id) = Action.workflow_export
needs (Service.set_workflow_export_protection workflow_id password salt) =
    Action.workflow_protect_export
needs (Service.create_api_key org_id name scopes expires_at id prefix secret salt) =
    Action.api_key_create
needs (Service.revoke_api_key org_id key_id now) = Action.api_key_revoke

guard_of-needs : (q : Request) → (guard_of q).action ≡ needs q
unfolding guard_of needs
guard_of-needs (Service.add_org_member org_id user_id role) = refl
guard_of-needs _ = refl

resolve-guard_of : (q : Request) → resolve (guard_of q).spec (guard_of q).params ≡ some (target q)
unfolding guard_of target resolve
resolve-guard_of (Service.add_org_member org_id user_id role) = refl
resolve-guard_of _ = refl

applies-guard_of : (q : Request) → applies_to (guard_of q).action (target q).kind ≡ true
unfolding guard_of target applies_to
applies-guard_of (Service.add_org_member org_id user_id role) = refl
applies-guard_of _ = refl

-- A request is carried out where the verdict is `none`; else it is answered with the status, and the
-- database stays as it is.
abbrev pub AnswersBy :
    Option ℕ → Result (Unit {0}) × Store → Result (Unit {0}) × Store → Store → Type 0
AnswersBy none answer performed s = answer ≡ performed
AnswersBy (some n) answer performed s = (error_status answer.0 ≡ some n) × (answer.1 ≡ s)

after_ok-AnswersBy :
    (guard : Result (Unit {0})) (s : Store) (performed : Result (Unit {0}) × Store)
    → AnswersBy (error_status guard) (after_ok guard s (λ u. performed)) performed s
unfolding error_status
after_ok-AnswersBy (ok u) s performed = refl
after_ok-AnswersBy (err e) s performed = (refl, refl)

module _ (is_authorized : Cedar) (cedar : IsCedar is_authorized) (hasher : Hasher)
    (is_uuid : String → Bool) (p : Principal) (cid : String) (q : Request) (s : Store) where
  -- What the rules demand of a request, by the action it needs on the resource that its path names,
  -- on the slice that the provider makes of the tables.
  abbrev pub verdict : EntitySlice → Option ℕ
  verdict slice =
      if is_anonymous p
      then some 401
      else guard_status slice (build_context fresh_state p) (needs q)
          (find_resource (target q) slice.resources)

  -- On tables whose roles are made of the code's capabilities, every request that changes the
  -- database has a slice, and the service does what the access rules demand on it: it carries the
  -- request out, or answers it 401, 404 or 403 and leaves the database as it is. What is demanded is
  -- the action of the table `needs`, on the resource of the table `target`. The references are
  -- plain, and `cedar` is the documented behaviour of the library.
  pub serve-AnswersBy :
      AreKnown s
      → IsPlain (principal_ref p)
      → IsPlain (target q)
      → (slice : EntitySlice) × (memo : Memo) × (slice_for
            (queries is_uuid s)
            []
            (principal_ref p)
            (target q ∷ [])
          ≡ some (slice, memo))
        × AnswersBy
            (verdict slice)
            (serve is_authorized load_policies hasher is_uuid p cid q s)
            (perform hasher p.subject q s)
            s
  unfolding serve build_context
  serve-AnswersBy known plain_p plain_r =
      let r = target q in
      let g = guard_of q in
      let (slice, memo, fetched) = slice_for-known is_uuid s known (principal_ref p) (r ∷ []) in
      let valid =
        slice_for-IsSlice (queries is_uuid s) [] memo (principal_ref p) (r ∷ []) slice refl
          fetched in
      let status =
        requires-status is_authorized cedar (queries is_uuid s) g.action g.spec p cid g.params
          fresh_state r slice memo (resolve-guard_of q) fetched
          (λ e found.
            ap (applies_to g.action) (sym (found-kind slice valid r e found)) ∙ applies-guard_of q)
          plain_p plain_r in
      (
        slice,
        memo,
        fetched,
        subst
            (λ v.
              AnswersBy v (serve is_authorized load_policies hasher is_uuid p cid q s)
                (perform hasher p.subject q s) s)
            (status
              ∙ ap
                  (λ a.
                    if is_anonymous p
                    then some 401
                    else guard_status slice (build_context fresh_state p) a
                        (find_resource r slice.resources))
                  (guard_of-needs q))
            (after_ok-AnswersBy
              (requires is_authorized load_policies (queries is_uuid s) g.action g.spec p cid
                g.params fresh_state).0
              s (perform hasher p.subject q s)),
      )
