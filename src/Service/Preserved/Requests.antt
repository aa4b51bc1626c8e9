-- ===== src/Service/Preserved/Requests.antt =====
-- The handlers and the service, for a property that the changes of the tables keep.
use stackai_authz_service.Prelude.{
  String, refl, Bool, false, ◌||◌, not, List, [], ◌∷◌, any, is_empty, mem_text, has_repeats, ◌==◌,
  arith,
}
use stackai_authz_service.Cedar.{Cedar, Policy}
use stackai_authz_service.Principal.{Principal}
use stackai_authz_service.Errors.{fresh_state}
use stackai_authz_service.ApiKeys.{Hasher}
use stackai_authz_service.Provider.{TeamRow}
use stackai_authz_service.Deps.{requires}
use stackai_authz_service.Store.{
  OrgMembership, TeamMembership, StoredWorkflow, StoredExport, Store, api_error,
}
use stackai_authz_service.Store.Triggers.{
  insert_org_membership, insert_team_membership, insert_team,
}
use stackai_authz_service.Store.Functions
use stackai_authz_service.Store.Functions.{
  none_remains, none_remains_in_team, team_in_org, is_default_team, erase_team,
}
use stackai_authz_service.Store.Queries.{queries}
use stackai_authz_service.Store.Yields.{
  insert_team_membership-Yields, insert_org_membership-Yields, insert_team-Yields,
}
use stackai_authz_service.Memberships
use stackai_authz_service.Memberships.{after_ok, team_org_id, resolve_role_id, is_org_super_admin}
use stackai_authz_service.Roles
use stackai_authz_service.Roles.{unknown_capabilities, role_clash}
use stackai_authz_service.Publishing
use stackai_authz_service.Publishing.{upsert_export, is_workflow, is_export, change}
use stackai_authz_service.Service
use stackai_authz_service.Service.{Request, guard_of, perform, serve, serve_all}
use stackai_authz_service.Store.Yields.Updates.{
  change_org_role-Yields, change_team_role-Yields, remove_org_member-Yields,
  remove_team_member-Yields, delete_team-Yields,
}
use stackai_authz_service.Service.Preserved.{
  IsPreserved, call-Yields, call_bare-Yields, after_ok-Yields, if-second,
}

module _ (P : Store → Type 0) (kept : IsPreserved P) where
  create_role-kept :
      (org_id name scope : String) (capabilities : List String) (id : String) (s : Store)
      → P s
      → P (Roles.create_role org_id name scope capabilities id s).1
  unfolding Roles.create_role
  create_role-kept org_id name scope capabilities id s h =
      if-second P (not (is_empty (unknown_capabilities capabilities))) _ _ (λ bad. h)
        (λ good.
          if-second P
            (any (role_clash id org_id name scope) s.roles || not (mem_text org_id s.organizations))
            _ _ (λ clash. h)
            (λ new.
              if-second P (has_repeats capabilities) _ _
                (λ twice.
                  kept.role_insert id org_id name scope [] s h (unfold unknown_capabilities in refl)
                    (ground arith))
                (λ once.
                  kept.role_insert id org_id name scope capabilities s h (ground arith)
                    (ground arith))))

  upsert_export-kept :
      (workflow_id : String) (f : StoredExport → StoredExport) (s : Store)
      → P s
      → P (upsert_export workflow_id f s).1
  unfolding upsert_export
  upsert_export-kept workflow_id f s h =
      if-second P (any (is_export workflow_id) s.exports) _ _
        (λ there. kept.workflow_change s.workflows _ s h)
        (λ absent.
          if-second P (any (is_workflow workflow_id) s.workflows) _ _
            (λ known. kept.workflow_change s.workflows _ s h) (λ lost. h))

  create_workflow-kept :
      (team_id name subject id : String) (s : Store)
      → P s
      → P (Publishing.create_workflow team_id name subject id s).1
  unfolding Publishing.create_workflow
  create_workflow-kept team_id name subject id s h =
      after_ok-Yields P s (team_org_id s team_id) _ h (λ org_id.
        if-second P
          (any (λ (w : StoredWorkflow). w.id == id) s.workflows
            || not (mem_text subject s.profiles))
          _ _ (λ clash. h) (λ new. kept.workflow_change _ s.exports s h))

  update_workflow-kept :
      (workflow_id name : String) (s : Store)
      → P s
      → P (Publishing.update_workflow workflow_id name s).1
  unfolding Publishing.update_workflow
  update_workflow-kept workflow_id name s h =
      if-second P (any (is_workflow workflow_id) s.workflows) _ _
        (λ there. kept.workflow_change _ s.exports s h) (λ absent. h)

  -- The handler of any route keeps the property.
  pub perform-kept :
      (hasher : Hasher) (subject : String) (q : Request) (s : Store)
      → P s
      → P (perform hasher subject q s).1
  unfolding perform Memberships.add_org_member Memberships.remove_org_member
      Memberships.change_org_role Memberships.create_team Memberships.add_team_member
      Memberships.delete_team Memberships.remove_team_member Memberships.change_team_role
      Publishing.delete_workflow Publishing.set_workflow_export Publishing.unset_workflow_export
      Publishing.set_workflow_export_protection
  perform-kept hasher subject (Service.add_org_member org_id user_id role) s h =
      after_ok-Yields P s (resolve_role_id "org" s org_id role) _ h (λ role_id.
        let m : OrgMembership = record { org_id = org_id; user_id = user_id; role_id = role_id } in
        call_bare-Yields P s (insert_org_membership m s) h
          (insert_org_membership-Yields P m s (kept.org_insert m s h)))
  perform-kept hasher subject (Service.remove_org_member org_id user_id) s h =
      call-Yields P s (Functions.remove_org_member org_id user_id s) h
        (remove_org_member-Yields P org_id user_id s (kept.org_remove org_id user_id s h))
  perform-kept hasher subject (Service.change_org_role org_id user_id role) s h =
      after_ok-Yields P s (resolve_role_id "org" s org_id role) _ h (λ role_id.
        call-Yields P s (Functions.change_org_role org_id user_id role_id s) h (
          change_org_role-Yields P org_id user_id role_id s h
            (kept.org_role org_id user_id role_id s h)))
  perform-kept hasher subject (Service.create_team org_id name id) s h =
      let t : TeamRow = record { id = id; org_id = org_id; name = name; is_default = false } in
      call_bare-Yields P s (insert_team t subject s) h (
        insert_team-Yields P t subject s
          (λ new role_id. kept.team_insert t subject role_id s h refl new)
          (λ new role_id. kept.team_update t subject role_id s h refl new))
  perform-kept hasher subject (Service.add_team_member team_id user_id role) s h =
      after_ok-Yields P s (team_org_id s team_id) _ h (λ org_id.
        after_ok-Yields P s (resolve_role_id "team" s org_id role) _ h (λ role_id.
          let m : TeamMembership = record {
            team_id = team_id;
            user_id = user_id;
            role_id = role_id;
          } in
          call_bare-Yields P s (insert_team_membership (api_error "23505" "") m s) h (
            insert_team_membership-Yields P (api_error "23505" "") m s (λ there. tt)
              (kept.team_member_insert m s h))))
  perform-kept hasher subject (Service.delete_team team_id) s h =
      call-Yields P s (Functions.delete_team team_id s) h
        (delete_team-Yields P team_id s (kept.team_delete team_id s h))
  perform-kept hasher subject (Service.remove_team_member team_id user_id) s h =
      after_ok-Yields P s (team_org_id s team_id) _ h (λ org_id.
        call-Yields P s
          (Functions.remove_team_member team_id user_id (is_org_super_admin s org_id subject) s) h
          (remove_team_member-Yields P team_id user_id (is_org_super_admin s org_id subject) s
            (λ other more. kept.team_member_remove team_id user_id s h other)))
  perform-kept hasher subject (Service.change_team_role team_id user_id role) s h =
      after_ok-Yields P s (team_org_id s team_id) _ h (λ org_id.
        after_ok-Yields P s (resolve_role_id "team" s org_id role) _ h (λ role_id.
          call-Yields P s
            (Functions.change_team_role team_id user_id role_id
              (is_org_super_admin s org_id subject) s)
            h
            (change_team_role-Yields P team_id user_id role_id (is_org_super_admin s org_id subject)
              s h (λ more. kept.team_role team_id user_id role_id s h))))
  perform-kept hasher subject (Service.create_role org_id name scope capabilities id) s h =
      create_role-kept org_id name scope capabilities id s h
  perform-kept hasher subject (Service.create_workflow team_id name id) s h =
      create_workflow-kept team_id name subject id s h
  perform-kept hasher subject (Service.update_workflow workflow_id name) s h =
      update_workflow-kept workflow_id name s h
  perform-kept hasher subject (Service.delete_workflow workflow_id) s h =
      kept.workflow_change _ _ s h
  perform-kept hasher subject (Service.set_workflow_export workflow_id visibility) s h =
      upsert_export-kept workflow_id _ s h
  perform-kept hasher subject (Service.unset_workflow_export workflow_id) s h =
      kept.workflow_change s.workflows _ s h
  perform-kept hasher subject (Service.set_workflow_export_protection workflow_id password salt) s
        h =
      upsert_export-kept workflow_id _ s h
  perform-kept hasher subject
        (Service.create_api_key org_id name scopes expires_at id prefix secret salt) s h =
      kept.key_change _ s h
  perform-kept hasher subject (Service.revoke_api_key org_id key_id now) s h = kept.key_change _ s h

  module _ (is_authorized : Cedar) (policies : List Policy) (hasher : Hasher)
      (is_uuid : String → Bool) where
    pub serve-kept :
        (p : Principal) (cid : String) (q : Request) (s : Store)
        → P s
        → P (serve is_authorized policies hasher is_uuid p cid q s).1
    unfolding serve
    serve-kept p cid q s h =
        let g = guard_of q in
        after_ok-Yields P s
          (requires is_authorized policies (queries is_uuid s) g.action g.spec p cid g.params
            fresh_state).0
          _ h (λ u. perform-kept hasher p.subject q s h)

    -- Whatever requests are served, of whatever callers, the property stays.
    pub serve_all-kept :
        (qs : List (Principal × String × Request)) (s : Store)
        → P s
        → P (serve_all is_authorized policies hasher is_uuid qs s)
    unfolding serve_all
    serve_all-kept [] s h = h
    serve_all-kept ((p, cid, q) ∷ qs) s h = serve_all-kept qs _ (serve-kept p cid q s h)
