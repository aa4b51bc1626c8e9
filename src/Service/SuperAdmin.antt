-- ===== src/Service/SuperAdmin.antt =====
-- The super-admins of an organization, through the requests that src/app/api/routers serves.
use stackai_authz_service.Prelude.{
  String, ◌≡◌, sym, ◌∙◌, ap, subst, Bool, true, false, ◌&&◌, not, some, List, [], ◌∷◌, ◌++◌, any,
  any-append, any-keep, any-imp, any-map, length-keep, find, find-append_some, ◌==◌, arith, eq_iff,
  Bool-cases, Option-cases, inl, inr,
}
use stackai_authz_service.Store.{RoleRow, OrgMembership, Store, find_role, role_has, grants}
use stackai_authz_service.Store.Triggers.{is_org_membership}
use stackai_authz_service.Store.Functions
use stackai_authz_service.Store.Functions.{is_manager, none_remains, set_org_role, update_org_role}
use stackai_authz_service.Store.Yields.{with_org_membership, join_default_team-Yields}
use stackai_authz_service.Cedar.{Cedar, Policy}
use stackai_authz_service.Principal.{Principal}
use stackai_authz_service.ApiKeys.{Hasher}
use stackai_authz_service.Service.{Request, serve_all}
use stackai_authz_service.Service.Preserved.{IsPreserved}
use stackai_authz_service.Service.Preserved.Requests.{serve_all-kept}

-- Some member of the organization manages it.
unfoldable pub IsManaged : String → Store → Type 0
unfolding is_manager
IsManaged org_id s = any (is_manager s.roles org_id) s.org_memberships ≡ true

-- A new role takes no capability from an old one.
role_has-append :
    (roles : List RoleRow) (role : RoleRow) (role_id capability : String)
    → role_has roles role_id capability ≡ true
    → role_has (roles ++ (role ∷ [])) role_id capability ≡ true
unfolding role_has find_role
role_has-append roles role role_id capability h =
    elim (Option-cases (find (λ r. r.id == role_id) roles)) [
      | inl e ↦ absurd (ground arith)
      | inr (r, e) ↦
          ap (λ o. grants o capability)
            (find-append_some (λ r. r.id == role_id) roles (role ∷ []) r e ∙ sym e)
          ∙ h
    ]

-- A manager of the organization whose membership a change of `user_id` in `other` leaves alone.
abbrev stays : List RoleRow → String → String → String → OrgMembership → Bool
stays roles org_id other user_id m =
    is_manager roles org_id m && not (is_org_membership other user_id m)

module _ (org_id : String) where
  -- Where some other manager remains, one stays.
  any-stays :
      (s : Store) (other user_id : String)
      → IsManaged org_id s
      → none_remains s other user_id ≡ false
      → any (stays s.roles org_id other user_id) s.org_memberships ≡ true
  unfolding none_remains IsManaged is_manager
  any-stays s other user_id h more = elim (Bool-cases (other == org_id)) [
    | inl same ↦
        any-imp (λ m. is_manager s.roles other m && not (m.user_id == user_id))
          (stays s.roles org_id other user_id) s.org_memberships
          (λ m k.
            subst (λ o. (is_manager s.roles o m && not (is_org_membership other user_id m)) ≡ true)
              ((eq_iff other org_id).0 same) (ground arith))
          (ground (
            arith,
            length-keep (λ m. is_manager s.roles other m && not (m.user_id == user_id))
                s.org_memberships,
          ))
    | inr apart ↦
        any-imp (is_manager s.roles org_id) (stays s.roles org_id other user_id) s.org_memberships
          (λ m k.
            ground (arith, eq_iff m.org_id org_id, eq_iff m.org_id other, eq_iff other org_id))
          h
  ]

  pub IsManaged-IsPreserved : IsPreserved (IsManaged org_id)
  unfolding IsManaged is_manager Functions.erase_team
  IsManaged-IsPreserved = record {
    org_insert = λ m s h fits absent.
        let more : IsManaged org_id (with_org_membership m s) =
          any-append (is_manager s.roles org_id) s.org_memberships (m ∷ []) ∙ ground arith in
        join_default_team-Yields (IsManaged org_id) m (with_org_membership m s) (λ e. more)
          (λ t e there. more) (λ t role_id e fits. more);
    org_remove = λ other user_id s h more.
        any-keep (stays s.roles org_id other user_id) (λ m. not (is_org_membership other user_id m))
          (is_manager s.roles org_id) s.org_memberships (λ m k. ground arith)
          (any-stays s other user_id h more);
    org_role = λ other user_id role_id s h more fits.
        elim (Bool-cases (role_has s.roles role_id "manage_org")) [
          | inl keeps ↦
              any-map (set_org_role other user_id role_id) (is_manager s.roles org_id)
                (is_manager s.roles org_id) s.org_memberships (λ m k. ground arith) h
          | inr drops ↦
              any-map (set_org_role other user_id role_id) (stays s.roles org_id other user_id)
                (is_manager s.roles org_id) s.org_memberships (λ m k. ground arith)
                (any-stays s other user_id h (ground arith))
        ];
    team_insert = λ t created_by role_id s h default new fits. h;
    team_update = λ t created_by role_id s h plain new. h;
    team_member_insert = λ m s h fits absent. h;
    team_member_remove = λ team_id user_id s h other. h;
    team_role = λ team_id user_id role_id s h fits. h;
    team_delete = λ team_id s h other. h;
    role_insert = λ id o name scope capabilities s h known new.
        let role : RoleRow = record {
          id = id;
          org_id = some o;
          name = name;
          scope = scope;
          capabilities = capabilities;
        } in
        any-imp (is_manager s.roles org_id) (is_manager (s.roles ++ (role ∷ [])) org_id)
          s.org_memberships
          (λ m k.
            let held = role_has-append s.roles role m.role_id "manage_org" (ground arith) in
            ground arith)
          h;
    workflow_change = λ workflows exports s h. h;
    key_change = λ keys s h. h;
  }

  -- An organization that has a member who manages it still has one after every sequence of requests,
  -- whoever sends them and whatever the policies grant.
  pub serve_all-IsManaged :
      (is_authorized : Cedar) (policies : List Policy) (hasher : Hasher) (is_uuid : String → Bool)
      (qs : List (Principal × String × Request)) (s : Store)
      → IsManaged org_id s
      → IsManaged org_id (serve_all is_authorized policies hasher is_uuid qs s)
  serve_all-IsManaged = serve_all-kept (IsManaged org_id) IsManaged-IsPreserved
