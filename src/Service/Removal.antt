-- ===== src/Service/Removal.antt =====
-- What a user who has been removed from an organization can still see of it.
use stackai_authz_service.Prelude.{
  String, ◌≡◌, refl, sym, ◌∙◌, ap, subst, Bool, true, false, ◌&&◌, not, Option, some, List, [], ◌∷◌,
  map, keep, mem_text, ◌==◌, arith, eq_iff,
}
use stackai_authz_service.Action.{Action}
use stackai_authz_service.Capability.{Capability}
use stackai_authz_service.Entities.{EntityRef, Resource, workflow, team, org, cap_ref}
use stackai_authz_service.Engine.{AuthzContext}
use stackai_authz_service.Rules.{rule}
use stackai_authz_service.Rules.Slices.{member_of_slice}
use stackai_authz_service.Provider.{
  CapabilitySlice, Memo, WorkflowRow, ExportRow, TeamRow, capability_slice, key_names, teams_with,
  orgs_with, build_slice, build_workflow_entity, build_team_entity, build_org_entity,
}
use stackai_authz_service.Provider.Refs.{mem_ref-team, mem_ref-org}
use stackai_authz_service.Provider.Fetched.{member-cap}
use stackai_authz_service.Deps.Outcomes.{seeing}
use stackai_authz_service.Deps.Requires.{guard_status}
use stackai_authz_service.Store.Yields.{Yields}
use stackai_authz_service.Store.Yields.Updates.{remove_org_member-Yields}
use stackai_authz_service.Store.{OrgMembership, TeamMembership, Store, done}
use stackai_authz_service.Store.Triggers.{is_org_membership}
use stackai_authz_service.Store.Functions.{team_in_org, remove_org_member}
use stackai_authz_service.Store.Queries.{queries, org_row, team_row}
use stackai_authz_service.Provider.Keys.{scoped, keys_with-absent, member-org}
use stackai_authz_service.Service.Scopes.{capability_slice-absent}

org_rows-absent :
    (s : Store) (org_id user_id : String) (ms : List OrgMembership)
    → scoped org_id (
        map (org_row s) (
          keep
            (λ m. m.user_id == user_id)
            (keep (λ m. not (is_org_membership org_id user_id m)) ms)))
      ≡ false
unfolding org_row
org_rows-absent s org_id user_id [] = refl
org_rows-absent s org_id user_id (m ∷ ms) = ground (arith, org_rows-absent s org_id user_id ms)

team_rows-absent :
    (s t : Store) (org_id user_id team_id : String) (ms : List TeamMembership)
    → team_in_org s.teams org_id team_id ≡ true
    → scoped team_id (
        map (team_row t) (
          keep
            (λ m. m.user_id == user_id)
            (keep (λ m. not ((m.user_id == user_id) && team_in_org s.teams org_id m.team_id)) ms)))
      ≡ false
unfolding team_row
team_rows-absent s t org_id user_id team_id [] h = refl
team_rows-absent s t org_id user_id team_id (m ∷ ms) h =
    ground (arith, team_rows-absent s t org_id user_id team_id ms, eq_iff m.team_id team_id)

-- A resource of the organization, as the provider builds it: the organization, one of its teams, or a
-- workflow of one of its teams.
pub data IsOf (teams : List TeamRow) (org_id : String) : Resource → Type 0 where
  its_workflow :
      (row : WorkflowRow) (export : Option ExportRow)
      → row.org_id ≡ org_id
      → team_in_org teams org_id row.team_id ≡ true
      → IsOf teams org_id (workflow (build_workflow_entity row export))
  its_team :
      (row : TeamRow)
      → row.org_id ≡ org_id
      → team_in_org teams org_id row.id ≡ true
      → IsOf teams org_id (team (build_team_entity row))
  itself : IsOf teams org_id (org (build_org_entity org_id))

-- What the removal leaves.
abbrev Removed : String → String → Store → Store → Type 0
Removed org_id user_id s t =
    (t.org_memberships ≡ keep (λ m. not (is_org_membership org_id user_id m)) s.org_memberships)
    × (t.team_memberships
        ≡ keep (λ m. not ((m.user_id == user_id) && team_in_org s.teams org_id m.team_id))
            s.team_memberships)

module _ (is_uuid : String → Bool) (s t : Store) (org_id user_id : String) (es : List Resource)
    (c : AuthzContext) (caps : CapabilitySlice) (memo : Memo) where
  abbrev user : EntityRef
  user = record { kind = "User"; id = user_id }

  abbrev inside : EntityRef → Bool
  inside = member_of_slice (build_slice user caps es)

  not_in_team :
      Removed org_id user_id s t
      → capability_slice (queries is_uuid t) [] user_id ≡ some (caps, memo)
      → (x : Capability) (team_id : String) → team_in_org s.teams org_id team_id ≡ true
      → inside (cap_ref x "team" team_id) ≡ false
  unfolding teams_with
  not_in_team (orgs, teams) known x team_id h =
      member-cap user caps es x "team" team_id refl
      ∙ mem_ref-team x team_id caps
      ∙ keys_with-absent x team_id caps.team_caps (
          (capability_slice-absent is_uuid t user_id caps memo team_id known).0 (
            ap (λ ms. scoped team_id (map (team_row t) (keep (λ m. m.user_id == user_id) ms))) teams
            ∙ team_rows-absent s t org_id user_id team_id s.team_memberships h))

  org_key :
      Removed org_id user_id s t
      → capability_slice (queries is_uuid t) [] user_id ≡ some (caps, memo)
      → mem_text org_id (key_names caps.org_caps) ≡ false
  org_key (orgs, teams) known =
      (capability_slice-absent is_uuid t user_id caps memo org_id known).1 (
        ap (λ ms. scoped org_id (map (org_row t) (keep (λ m. m.user_id == user_id) ms))) orgs
        ∙ org_rows-absent t org_id user_id s.org_memberships)

  not_admin :
      Removed org_id user_id s t
      → capability_slice (queries is_uuid t) [] user_id ≡ some (caps, memo)
      → inside (cap_ref Capability.manage_org "org" org_id) ≡ false
  unfolding orgs_with
  not_admin removed known =
      member-cap user caps es Capability.manage_org "org" org_id refl
      ∙ mem_ref-org Capability.manage_org org_id caps
      ∙ keys_with-absent Capability.manage_org org_id caps.org_caps (org_key removed known)

  not_admin_of :
      (o : String)
      → Removed org_id user_id s t
      → capability_slice (queries is_uuid t) [] user_id ≡ some (caps, memo)
      → o ≡ org_id
      → inside (cap_ref Capability.manage_org "org" o) ≡ false
  not_admin_of o removed known same =
      subst (λ x. inside (cap_ref Capability.manage_org "org" x) ≡ false) (sym same)
        (not_admin removed known)

  unseen :
      (e : Resource)
      → Removed org_id user_id s t
      → capability_slice (queries is_uuid t) [] user_id ≡ some (caps, memo)
      → IsOf s.teams org_id e
      → rule inside c (seeing e) e ≡ false
  unfolding rule seeing build_workflow_entity build_team_entity build_org_entity
  unseen _ removed known (its_workflow row export same of_org) =
      let admin = not_admin_of row.org_id removed known same in
      let sight = not_in_team removed known Capability.view row.team_id of_org in ground arith
  unseen _ removed known (its_team row same of_org) =
      let admin = not_admin_of row.org_id removed known same in
      let sight = not_in_team removed known Capability.view row.id of_org in ground arith
  unseen _ removed known itself =
      let admin = not_admin removed known in
      let belongs = member-org user caps es org_id refl ∙ org_key removed known in ground arith

  remove_org_member-Removed :
      remove_org_member org_id user_id s ≡ done t → Removed org_id user_id s t
  remove_org_member-Removed h =
      subst (Yields (Removed org_id user_id s)) h (
        remove_org_member-Yields (Removed org_id user_id s) org_id user_id s (λ more. (refl, refl)))

  -- Once a user has been removed from an organization, the guard of any route answers 404 for the
  -- organization, its teams and the workflows of its teams: on the tables after the removal, and on
  -- the slice that the provider builds for that user over whatever entities, the rules hide them all.
  pub remove_org_member-hides :
      (a : Action) (e : Resource)
      → remove_org_member org_id user_id s ≡ done t
      → capability_slice (queries is_uuid t) [] user_id ≡ some (caps, memo)
      → IsOf s.teams org_id e
      → guard_status (build_slice user caps es) c a (some e) ≡ some 404
  remove_org_member-hides a e removed known belongs =
      rw (unseen e (remove_org_member-Removed removed) known belongs) refl
