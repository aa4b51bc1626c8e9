-- ===== src/Store/Yields/Updates.antt =====
-- The functions of the database that change or remove rows: the states that each can end in.
use stackai_authz_service.Prelude.{String, ◌≡◌, Bool, false, ◌&&◌, not, any, keep, ◌==◌}
use stackai_authz_service.Store.{Store, done, role_has}
use stackai_authz_service.Store.Triggers.{
  is_org_membership, is_team_membership, check_org_membership_role, check_team_membership_role,
}
use stackai_authz_service.Store.Functions.{
  none_remains, none_remains_in_team, team_in_org, is_default_team, remove_org_member,
  update_org_role, change_org_role, remove_team_member, update_team_role, change_team_role,
  erase_team, delete_team,
}
use stackai_authz_service.Store.Yields.{
  Yields, if-Yields, check-Yields, with_org_role, with_team_role,
}

module _ (P : Store → Type 0) where
  pub update_org_role-Yields :
      (org_id user_id role_id : String) (s : Store)
      → P s
      → (check_org_membership_role s
              (record { org_id = org_id; user_id = user_id; role_id = role_id })
            ≡ done tt
          → P (with_org_role org_id user_id role_id s))
      → Yields P (update_org_role org_id user_id role_id s)
  unfolding update_org_role
  update_org_role-Yields org_id user_id role_id s h k =
      if-Yields P (any (is_org_membership org_id user_id) s.org_memberships) _ _
        (λ there.
          check-Yields P
            (check_org_membership_role s
              (record { org_id = org_id; user_id = user_id; role_id = role_id }))
            _ k)
        (λ absent. h)

  pub change_org_role-Yields :
      (org_id user_id role_id : String) (s : Store)
      → P s
      → ((not (role_has s.roles role_id "manage_org") && none_remains s org_id user_id) ≡ false
          → check_org_membership_role s
              (record { org_id = org_id; user_id = user_id; role_id = role_id })
            ≡ done tt
          → P (with_org_role org_id user_id role_id s))
      → Yields P (change_org_role org_id user_id role_id s)
  unfolding change_org_role
  change_org_role-Yields org_id user_id role_id s h k =
      if-Yields P (not (role_has s.roles role_id "manage_org") && none_remains s org_id user_id) _ _
        (λ last. tt) (λ more. update_org_role-Yields org_id user_id role_id s h (k more))

  pub change_team_role-Yields :
      (team_id user_id role_id : String) (super : Bool) (s : Store)
      → P s
      → ((not (role_has s.roles role_id "manage_members")
              && not super
              && none_remains_in_team s team_id user_id)
            ≡ false
          → check_team_membership_role s
              (record { team_id = team_id; user_id = user_id; role_id = role_id })
            ≡ done tt
          → P (with_team_role team_id user_id role_id s))
      → Yields P (change_team_role team_id user_id role_id super s)
  unfolding change_team_role update_team_role
  change_team_role-Yields team_id user_id role_id super s h k =
      if-Yields P
        (not (role_has s.roles role_id "manage_members")
          && not super
          && none_remains_in_team s team_id user_id)
        _ _ (λ last. tt)
        (λ more.
          if-Yields P (any (is_team_membership team_id user_id) s.team_memberships) _ _
            (λ there.
              check-Yields P
                (check_team_membership_role s
                  (record { team_id = team_id; user_id = user_id; role_id = role_id }))
                _ (k more))
            (λ absent. h))

  pub remove_org_member-Yields :
      (org_id user_id : String) (s : Store)
      → (none_remains s org_id user_id ≡ false
          → P (record s {
            team_memberships =
                keep
                  (λ m. not ((m.user_id == user_id) && team_in_org s.teams org_id m.team_id))
                  s.team_memberships;
            org_memberships =
                keep (λ m. not (is_org_membership org_id user_id m)) s.org_memberships;
          }))
      → Yields P (remove_org_member org_id user_id s)
  unfolding remove_org_member
  remove_org_member-Yields org_id user_id s k =
      if-Yields P (none_remains s org_id user_id) _ _ (λ last. tt) k

  pub remove_team_member-Yields :
      (team_id user_id : String) (super : Bool) (s : Store)
      → (is_default_team s team_id ≡ false
          → (not super && none_remains_in_team s team_id user_id) ≡ false
          → P (record s {
            team_memberships =
                keep (λ m. not (is_team_membership team_id user_id m)) s.team_memberships;
          }))
      → Yields P (remove_team_member team_id user_id super s)
  unfolding remove_team_member
  remove_team_member-Yields team_id user_id super s k =
      if-Yields P (is_default_team s team_id) _ _ (λ default. tt)
        (λ other.
          if-Yields P (not super && none_remains_in_team s team_id user_id) _ _ (λ last. tt)
            (k other))

  pub delete_team-Yields :
      (team_id : String) (s : Store)
      → (is_default_team s team_id ≡ false → P (erase_team team_id s))
      → Yields P (delete_team team_id s)
  unfolding delete_team
  delete_team-Yields team_id s k = if-Yields P (is_default_team s team_id) _ _ (λ default. tt) k
