-- ===== src/Service/TeamAdmin.antt =====
-- The admins of a team, and the handlers of src/app/api/routers/teams.py that remove or demote them.
use stackai_authz_service.Prelude.{
  String, ◌≡◌, refl, subst, Bool, true, false, ◌&&◌, not, any, any-keep, any-imp, any-map,
  length-keep, any-find_other, find, find_holds, All, All-find, Option-cases, ◌==◌, arith, eq_iff,
  Bool-cases, inl, inr,
}
use stackai_authz_service.Store.{
  OrgMembership, TeamMembership, Store, role_has, find_role, find_team, grants,
}
use stackai_authz_service.Store.Triggers.{set_team_role, is_org_membership, is_team_membership}
use stackai_authz_service.Store.Functions.{is_team_manager, none_remains_in_team}
use stackai_authz_service.Store.Yields.{with_team_role}
use stackai_authz_service.Store.Yields.Updates.{remove_team_member-Yields, change_team_role-Yields}
use stackai_authz_service.Memberships
use stackai_authz_service.Memberships.{after_ok, team_org_id, resolve_role_id, is_org_super_admin}
use stackai_authz_service.Service.Preserved.{call-Yields, after_ok-Yields, after_ok-Yields_known}
use stackai_authz_service.Memberships.Resolution.{team_org_id-ok}
use stackai_authz_service.Errors.{ok}
use stackai_authz_service.Provider.{TeamRow}

-- Some member of the team manages its members.
unfoldable pub HasAdmin : String → Store → Type 0
unfolding is_team_manager
HasAdmin team_id s = any (is_team_manager s.roles team_id) s.team_memberships ≡ true

-- Whether the membership makes the user a manager of the organization.
abbrev pub makes_manager : Store → String → String → OrgMembership → Bool
makes_manager s org_id subject m =
    m.org_id == org_id && m.user_id == subject && role_has s.roles m.role_id "manage_org"

-- No membership makes the user a manager of the organization of the team.
abbrev pub IsPlainIn : Store → String → String → Type 0
IsPlainIn s team_id subject =
    All
      (λ (t : TeamRow).
        (t.id == team_id && any (makes_manager s t.org_id subject) s.org_memberships) ≡ false)
      s.teams

is_org_super_admin-makes_manager :
    (s : Store) (org_id subject : String)
    → any (makes_manager s org_id subject) s.org_memberships ≡ false
    → is_org_super_admin s org_id subject ≡ false
unfolding is_org_super_admin role_has
is_org_super_admin-makes_manager s org_id subject h =
    elim (Option-cases (find (is_org_membership org_id subject) s.org_memberships)) [
      | inl e ↦ rw (e, is_org_super_admin) refl
      | inr (m, e) ↦ elim (Bool-cases (grants (find_role m.role_id s.roles) "manage_org")) [
        | inr not_granted ↦ rw (e, is_org_super_admin) not_granted
        | inl granted ↦
            (let its = find_holds (is_org_membership org_id subject) s.org_memberships m e in
              let there =
                any-find_other (is_org_membership org_id subject) (makes_manager s org_id subject)
                  s.org_memberships m e (ground arith) in
              absurd (ground arith))
      ]
    ]

IsPlainIn-is_org_super_admin :
    (s : Store) (team_id subject org_id : String)
    → IsPlainIn s team_id subject
    → team_org_id s team_id ≡ ok org_id
    → is_org_super_admin s org_id subject ≡ false
unfolding find_team
IsPlainIn-is_org_super_admin s team_id subject org_id plain known =
    let (t, found, its) = team_org_id-ok s team_id org_id known in
    let here = find_holds (λ (t : TeamRow). t.id == team_id) s.teams t found in
    let none_there = All-find _ (λ (t : TeamRow). t.id == team_id) s.teams t plain found in
    is_org_super_admin-makes_manager s org_id subject
      (subst (λ o. any (makes_manager s o subject) s.org_memberships ≡ false) its (ground arith))

module _ (team_id other user_id : String) (s : Store) (led : HasAdmin team_id s) where
  -- A manager of the team whose membership a change of `user_id` in `other` leaves alone.
  abbrev stays : TeamMembership → Bool
  stays m = is_team_manager s.roles team_id m && not (is_team_membership other user_id m)

  any-stays : none_remains_in_team s other user_id ≡ false → any stays s.team_memberships ≡ true
  unfolding none_remains_in_team HasAdmin is_team_manager
  any-stays more = elim (Bool-cases (other == team_id)) [
    | inl same ↦
        any-imp (λ m. is_team_manager s.roles other m && not (m.user_id == user_id)) stays
          s.team_memberships
          (λ m k.
            subst
              (λ o.
                (is_team_manager s.roles o m && not (is_team_membership other user_id m)) ≡ true)
              ((eq_iff other team_id).0 same) (ground arith))
          (ground (
            arith,
            length-keep (λ m. is_team_manager s.roles other m && not (m.user_id == user_id))
                s.team_memberships,
          ))
    | inr apart ↦
        any-imp (is_team_manager s.roles team_id) stays s.team_memberships
          (λ m k.
            ground (arith, eq_iff m.team_id team_id, eq_iff m.team_id other, eq_iff other team_id))
          led
  ]

  update-HasAdmin :
      (role_id : String)
      → (role_has s.roles role_id "manage_members" ≡ false → any stays s.team_memberships ≡ true)
      → HasAdmin team_id (with_team_role other user_id role_id s)
  unfolding HasAdmin is_team_manager
  update-HasAdmin role_id k = elim (Bool-cases (role_has s.roles role_id "manage_members")) [
    | inl keeps ↦
        any-map (set_team_role other user_id role_id) (is_team_manager s.roles team_id)
          (is_team_manager s.roles team_id) s.team_memberships (λ m k. ground arith) led
    | inr drops ↦
        any-map (set_team_role other user_id role_id) stays (is_team_manager s.roles team_id)
          s.team_memberships (λ m k. ground arith) (k drops)
  ]

  -- A team with a member who manages its members still has one after a caller has removed a
  -- member of whatever team, or changed a role in it, who is no super-admin of that team's own
  -- organization: the handlers refuse what would leave it without. No super-admin of an organization
  -- means that no membership in it gives the caller a role with `manage_org`.
  pub team_member-HasAdmin :
      (subject role : String)
      → IsPlainIn s other subject
      → HasAdmin team_id (Memberships.remove_team_member other user_id subject s).1
        × HasAdmin team_id (Memberships.change_team_role other user_id role subject s).1
  unfolding Memberships.remove_team_member Memberships.change_team_role HasAdmin is_team_manager
  team_member-HasAdmin subject role plain = (
    after_ok-Yields_known (HasAdmin team_id) s (team_org_id s other) _ led (λ org_id known.
        call-Yields (HasAdmin team_id) s _ led (
          remove_team_member-Yields (HasAdmin team_id) other user_id
            (is_org_super_admin s org_id subject) s
            (λ custom more.
              any-keep stays (λ m. not (is_team_membership other user_id m))
                (is_team_manager s.roles team_id) s.team_memberships (λ m k. ground arith)
                (any-stays (
                  rw (IsPlainIn-is_org_super_admin s other subject org_id plain known) at more))))),
    after_ok-Yields_known (HasAdmin team_id) s (team_org_id s other) _ led (λ org_id known.
        after_ok-Yields (HasAdmin team_id) s (resolve_role_id "team" s org_id role) _ led
          (λ role_id. call-Yields (HasAdmin team_id) s _ led (
            change_team_role-Yields (HasAdmin team_id) other user_id role_id
              (is_org_super_admin s org_id subject) s led
              (λ more fits. update-HasAdmin role_id (λ drops. any-stays (
                let super = IsPlainIn-is_org_super_admin s other subject org_id plain known in
                ground arith)))))),
  )
