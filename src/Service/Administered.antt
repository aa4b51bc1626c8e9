-- ===== src/Service/Administered.antt =====
-- The requests together with what changes the database beside them: deleted roles, new users and new
-- organizations.
use stackai_authz_service.Prelude.{
  String, ◌≡◌, refl, ◌∙◌, ap, Bool, true, false, ◌&&◌, not, List, [], ◌∷◌, any, any-ext, keep, find,
  find-keep, length-keep, All-imp, All-not_any, ltb, if◌then◌else◌, mem_text, ◌==◌, eq_iff, arith,
}
use stackai_authz_service.Cedar.{Cedar, Policy}
use stackai_authz_service.Principal.{Principal}
use stackai_authz_service.ApiKeys.{Hasher}
use stackai_authz_service.Store.{
  RoleRow, OrgMembership, Store, Outcome, done, api_error, find_role, role_has, grants,
}
use stackai_authz_service.Store.Functions.{is_manager}
use stackai_authz_service.Store.Administration.{
  uses, is_custom, delete_role, handle_new_user, create_default_team, insert_organization,
  team_conflict,
}
use stackai_authz_service.Service.{Request, serve}
use stackai_authz_service.Service.Preserved.Requests.{serve-kept}
use stackai_authz_service.Service.SuperAdmin.{IsManaged, IsManaged-IsPreserved}

pub data Event : Type 0 where
  request : Principal → String → Request → Event
  role_deletion : (role_id : String) → Event
  user_creation : (user_id : String) → Event
  organization_creation : (org_id team_id : String) → Event

-- A statement that fails leaves the database as it is.
abbrev settled : Store → Outcome Store → Store
settled s (done t) = t
settled s (api_error code message) = s

module _ (is_authorized : Cedar) (policies : List Policy) (hasher : Hasher)
    (is_uuid : String → Bool) where
  unfoldable pub run_event : Event → Store → Store
  unfolding serve
  run_event (request p cid q) s = (serve is_authorized policies hasher is_uuid p cid q s).1
  run_event (role_deletion role_id) s = settled s (delete_role role_id s)
  run_event (user_creation user_id) s = settled s (handle_new_user user_id s)
  run_event (organization_creation org_id team_id) s =
      settled s (insert_organization org_id team_id s)

  unfoldable pub run_all : List Event → Store → Store
  unfolding run_event
  run_all [] s = s
  run_all (e ∷ es) s = run_all es (run_event e s)

-- The roles but one grant to the others' holders what they did.
role_has-keep :
    (roles : List RoleRow) (deleted role_id capability : String)
    → (role_id == deleted) ≡ false
    → role_has (keep (λ (r : RoleRow). not (r.id == deleted)) roles) role_id capability
      ≡ role_has roles role_id capability
unfolding role_has find_role
role_has-keep roles deleted role_id capability other =
    ap (λ o. grants o capability)
      (find-keep (λ (r : RoleRow). r.id == role_id) (λ r. not (r.id == deleted)) roles ∙ same roles)
  where
    same :
        (rs : List RoleRow)
        → find (λ (r : RoleRow). not (r.id == deleted) && r.id == role_id) rs
          ≡ find (λ r. r.id == role_id) rs
    same [] = refl
    same (r ∷ rs) =
        ground (arith, same rs, eq_iff r.id deleted, eq_iff r.id role_id, eq_iff role_id deleted)

unused :
    (role_id : String) (s : Store)
    → ltb 0 (uses role_id s) ≡ false
    → any (λ (m : OrgMembership). m.role_id == role_id) s.org_memberships ≡ false
unfolding uses
unused role_id s h =
    ground (arith, length-keep (λ (m : OrgMembership). m.role_id == role_id) s.org_memberships)

settled-if :
    (P : Store → Type 0) (s : Store) (b : Bool) (x y : Outcome Store)
    → (b ≡ true → P (settled s x))
    → (b ≡ false → P (settled s y))
    → P (settled s (if b then x else y))
settled-if P s true x y h k = h refl
settled-if P s false x y h k = k refl

module _ (org_id : String) where
  drop_role-IsManaged :
      (role_id : String) (s : Store)
      → IsManaged org_id s
      → ltb 0 (uses role_id s) ≡ false
      → IsManaged org_id
          (record s { roles = keep (λ (r : RoleRow). not (r.id == role_id)) s.roles })
  unfolding IsManaged is_manager
  drop_role-IsManaged role_id s h free =
      any-ext _ (is_manager s.roles org_id) s.org_memberships (
        All-imp (λ (m : OrgMembership). (m.role_id == role_id) ≡ false) _ s.org_memberships
          (λ m other.
            ap (λ b. m.org_id == org_id && b)
              (role_has-keep s.roles role_id m.role_id "manage_org" other))
          (All-not_any (λ (m : OrgMembership). m.role_id == role_id) s.org_memberships
            (unused role_id s free)))
      ∙ h

  delete_role-IsManaged :
      (role_id : String) (s : Store)
      → IsManaged org_id s
      → IsManaged org_id (settled s (delete_role role_id s))
  unfolding delete_role
  delete_role-IsManaged role_id s h =
      settled-if (IsManaged org_id) s (ltb 0 (uses role_id s)) _ _ (λ e. h)
        (λ free.
          settled-if (IsManaged org_id) s (not (any (is_custom role_id) s.roles)) _ _ (λ e. h)
            (λ e. drop_role-IsManaged role_id s h free))

  handle_new_user-IsManaged :
      (user_id : String) (s : Store)
      → IsManaged org_id s
      → IsManaged org_id (settled s (handle_new_user user_id s))
  unfolding handle_new_user IsManaged is_manager
  handle_new_user-IsManaged user_id s h =
      settled-if (IsManaged org_id) s (mem_text user_id s.profiles) _ _ (λ e. h) (λ e. h)

  insert_organization-IsManaged :
      (new_org team_id : String) (s : Store)
      → IsManaged org_id s
      → IsManaged org_id (settled s (insert_organization new_org team_id s))
  unfolding insert_organization create_default_team IsManaged is_manager
  insert_organization-IsManaged new_org team_id s h =
      settled-if (IsManaged org_id) s (mem_text new_org s.organizations) _ _ (λ e. h)
        (λ e.
          settled-if (IsManaged org_id) s (any (team_conflict new_org team_id) s.teams) _ _ (λ e. h)
            (λ e. h))

  module _ (is_authorized : Cedar) (policies : List Policy) (hasher : Hasher)
      (is_uuid : String → Bool) where
    run_event-IsManaged :
        (e : Event) (s : Store)
        → IsManaged org_id s
        → IsManaged org_id (run_event is_authorized policies hasher is_uuid e s)
    unfolding run_event
    run_event-IsManaged (request p cid q) s h =
        serve-kept (IsManaged org_id) (IsManaged-IsPreserved org_id) is_authorized policies hasher
          is_uuid p cid q s h
    run_event-IsManaged (role_deletion role_id) s h = delete_role-IsManaged role_id s h
    run_event-IsManaged (user_creation user_id) s h = handle_new_user-IsManaged user_id s h
    run_event-IsManaged (organization_creation new_org team_id) s h =
        insert_organization-IsManaged new_org team_id s h

    -- An organization that has a member who manages it still has one after every sequence of requests,
    -- deletions of roles, new users and new organizations: a role in use is not deleted.
    pub run_all-IsManaged :
        (es : List Event) (s : Store)
        → IsManaged org_id s
        → IsManaged org_id (run_all is_authorized policies hasher is_uuid es s)
    unfolding run_all
    run_all-IsManaged [] s h = h
    run_all-IsManaged (e ∷ es) s h = run_all-IsManaged es _ (run_event-IsManaged e s h)
