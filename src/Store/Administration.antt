-- ===== src/Store/Administration.antt =====
-- What changes the database beside the routes: `delete_role` of
-- supabase/migrations/20260820000400_invariants.sql, the trigger on new users of
-- 20260820000200_triggers.sql and the one on new organizations of 20260820000600_default_team.sql.
use stackai_authz_service.Prelude.{
  ℕ, ◌+◌, String, Bool, true, false, ◌&&◌, ◌||◌, not, none, some, [], ◌∷◌, ◌++◌, any, keep, length,
  mem_text, ltb, if◌then◌else◌, ◌==◌,
}
use stackai_authz_service.Provider.{TeamRow}
use stackai_authz_service.Store.{
  RoleRow, OrgMembership, TeamMembership, Store, Outcome, done, api_error,
}

-- The number of members that have the role: `in_use`
unfoldable pub uses : String → Store → ℕ
uses role_id s =
    length (keep (λ (m : OrgMembership). m.role_id == role_id) s.org_memberships)
    + length (keep (λ (m : TeamMembership). m.role_id == role_id) s.team_memberships)

abbrev pub is_custom : String → RoleRow → Bool
is_custom role_id r = (r.id == role_id) && (elim r.org_id [ none ↦ false | some o ↦ true ])

-- `delete_role`; the capabilities of the role go with it.
unfoldable pub delete_role : String → Store → Outcome Store
unfolding uses
delete_role role_id s =
    if ltb 0 (uses role_id s)
    then api_error "ZA004" "This role is still assigned to members and cannot be deleted."
    else if not (any (is_custom role_id) s.roles)
    then api_error "ZA004" "Built-in roles cannot be deleted."
    else done (record s { roles = keep (λ (r : RoleRow). not (r.id == role_id)) s.roles })

-- `handle_new_user`, for a user that has been inserted
unfoldable pub handle_new_user : String → Store → Outcome Store
handle_new_user id s =
    if mem_text id s.profiles
    then done s
    else done (record s { profiles = s.profiles ++ (id ∷ []) })

-- Whether a default team of the organization would break a unique index of `teams`.
abbrev pub team_conflict : String → String → TeamRow → Bool
team_conflict org_id team_id t =
    t.id == team_id || ((t.org_id == org_id) && (t.name == "General" || t.is_default))

-- `create_default_team`, for an organization that has been inserted. The team has no creator, whom
-- `team_creator_is_admin` would make its admin. `team_id` is the one that the database gives.
unfoldable pub create_default_team : String → String → Store → Outcome Store
create_default_team org_id team_id s =
    if any (team_conflict org_id team_id) s.teams
    then done s
    else done (record s {
      teams =
          s.teams
          ++ (record { id = team_id; org_id = org_id; name = "General"; is_default = true } ∷ []);
    })

-- An insertion into `organizations`
unfoldable pub insert_organization : String → String → Store → Outcome Store
unfolding create_default_team
insert_organization org_id team_id s =
    if mem_text org_id s.organizations
    then api_error "23505" ""
    else create_default_team org_id team_id
        (record s { organizations = s.organizations ++ (org_id ∷ []) })
