-- ===== src/Tests/Tables.antt =====
-- The theorems about the database and the service on it, on tables with one organization, its default
-- team, a team of its own with a published workflow, a super-admin and a member.
use stackai_authz_service.Prelude.{
  String, Bool, true, false, ◌≡◌, refl, none, some, [], ◌∷◌, ◌++◌, lacks, arith,
}
use stackai_authz_service.Action
use stackai_authz_service.Capability.{view}
use stackai_authz_service.Entities.{team}
use stackai_authz_service.Cedar.{IsPlain}
use stackai_authz_service.Cedar.Reader.{reference_cedar, reference_cedar-IsCedar}
use stackai_authz_service.Policies.{load_policies}
use stackai_authz_service.Provider.{
  capability_slice, CapabilitySlice, TeamRow, build_slice, build_team_entity,
}
use stackai_authz_service.Principal.{principal_ref, anonymous_principal}
use stackai_authz_service.Errors.{ok, fresh_state, error_status}
use stackai_authz_service.Deps.{build_context}
use stackai_authz_service.Deps.Requires.{guard_status}
use stackai_authz_service.RateLimiter.{new_limiter, check, record_success}
use stackai_authz_service.RateLimiter.Keys.{get, pop}
use stackai_authz_service.Store.{RoleRow, Store}
use stackai_authz_service.Store.Functions
use stackai_authz_service.Store.Queries.{queries, exported_hashes}
use stackai_authz_service.Memberships
use stackai_authz_service.Memberships.{is_org_super_admin}
use stackai_authz_service.Service.Admission.{add_org_member-shows}
use stackai_authz_service.Entities.{org}
use stackai_authz_service.Provider.{build_org_entity}
use stackai_authz_service.Roles.{unknown_capabilities}
use stackai_authz_service.Publishing.{unset_workflow_export}
use stackai_authz_service.Publishing.Password.{republished, exchange-republished}
use stackai_authz_service.Publishing.Hidden.{execution-unset}
use stackai_authz_service.Public.{execute_exported_workflow, exchange_password_for_token}
use stackai_authz_service.WorkflowToken.{issue_workflow_token}
use stackai_authz_service.Service.Known.{AreKnown}
use stackai_authz_service.Service.TeamAdmin.{HasAdmin, team_member-HasAdmin}
use stackai_authz_service.Service.Removal.{its_team, remove_org_member-hides}
use stackai_authz_service.Tests.{ann, ann_ref}
use stackai_authz_service.Tests.Externals.{open_jwt, settings, hasher}

abbrev manager_role : RoleRow
manager_role = record {
  id = "r1";
  org_id = none;
  name = "super_admin";
  scope = "org";
  capabilities = "manage_org" ∷ "view" ∷ [];
}

abbrev member_role : RoleRow
member_role = record { id = "r2"; org_id = none; name = "member"; scope = "org"; capabilities = [] }

abbrev admin_role : RoleRow
admin_role = record {
  id = "r3";
  org_id = none;
  name = "admin";
  scope = "team";
  capabilities = "view" ∷ "manage_members" ∷ [];
}

abbrev viewer_role : RoleRow
viewer_role = record {
  id = "r4";
  org_id = none;
  name = "viewer";
  scope = "team";
  capabilities = "view" ∷ [];
}

abbrev own_team : TeamRow
own_team = record { id = "t1"; org_id = "o1"; name = "research"; is_default = false }

-- ann manages the organization and the team; bob sees both teams.
abbrev pub tables : Store
tables = record {
  profiles = "ann" ∷ "bob" ∷ "cyd" ∷ [];
  organizations = "o1" ∷ [];
  roles = manager_role ∷ member_role ∷ admin_role ∷ viewer_role ∷ [];
  org_memberships =
      record { org_id = "o1"; user_id = "ann"; role_id = "r1" }
      ∷ record { org_id = "o1"; user_id = "bob"; role_id = "r2" }
      ∷ [];
  teams = record { id = "t0"; org_id = "o1"; name = "everyone"; is_default = true } ∷ own_team ∷ [];
  team_memberships =
      record { team_id = "t0"; user_id = "ann"; role_id = "r4" }
      ∷ record { team_id = "t0"; user_id = "bob"; role_id = "r4" }
      ∷ record { team_id = "t1"; user_id = "ann"; role_id = "r3" }
      ∷ record { team_id = "t1"; user_id = "bob"; role_id = "r4" }
      ∷ [];
  workflows = record { id = "w1"; org_id = "o1"; team_id = "t1"; name = "report" } ∷ [];
  exports =
      record { workflow_id = "w1"; is_exported = true; visibility = "public"; password_hash = none }
      ∷ [];
  api_keys = [];
}

abbrev pub any_text : String → Bool
any_text s = true

pub ann-IsPlain : IsPlain ann_ref
unfolding lacks
ann-IsPlain = (refl, refl, refl)

pub anonymous-IsPlain : IsPlain (principal_ref anonymous_principal)
unfolding lacks
anonymous-IsPlain = (refl, refl, refl)

workflow-IsPlain : IsPlain (record { kind = "Workflow"; id = "w1" })
unfolding lacks
workflow-IsPlain = (refl, refl, refl)

pub team-IsPlain : IsPlain (record { kind = "Team"; id = "t1" })
unfolding lacks
team-IsPlain = (refl, refl, refl)

pub tables-AreKnown : AreKnown tables
unfolding AreKnown unknown_capabilities
tables-AreKnown = (refl, (refl, (refl, (refl, tt))))

team_member-HasAdmin_example :
    HasAdmin "t1" (Memberships.remove_team_member "t1" "ann" "bob" tables).1
    × HasAdmin "t1" (Memberships.change_team_role "t1" "ann" "viewer" "bob" tables).1
unfolding HasAdmin
team_member-HasAdmin_example =
    team_member-HasAdmin "t1" "t1" "ann" tables refl "bob" "viewer" (refl, (refl, tt))

exchange-republished_example :
    exchange_password_for_token open_jwt hasher.verify "dummy"
      (exported_hashes (
        republished "w1" open_jwt hasher "dummy" settings none none "secret" "salt" "public"
          "org_only" tables))
      settings
      "w1"
      "secret"
      none
      none
      1000
      1000
      new_limiter
    ≡ (ok (issue_workflow_token open_jwt "w1" "secret" 300 1000), new_limiter)
unfolding check get record_success pop
exchange-republished_example =
    exchange-republished "w1" open_jwt hasher "dummy" settings none none "secret" "salt" "public"
      "org_only" "secret" 1000 1000 new_limiter tables refl refl refl (omega arith)

execution-unset_example :
    error_status
      (execute_exported_workflow open_jwt reference_cedar load_policies
        (queries any_text (unset_workflow_export "w1" tables).1)
        settings
        "w1"
        none
        anonymous_principal
        1000
        fresh_state).0
    ≡ some 403
execution-unset_example =
    execution-unset "w1" reference_cedar reference_cedar-IsCedar open_jwt settings any_text tables
      anonymous_principal none 1000 fresh_state tables-AreKnown anonymous-IsPlain workflow-IsPlain

abbrev without_bob : Store
without_bob = record tables {
  org_memberships = record { org_id = "o1"; user_id = "ann"; role_id = "r1" } ∷ [];
  team_memberships =
      record { team_id = "t0"; user_id = "ann"; role_id = "r4" }
      ∷ record { team_id = "t1"; user_id = "ann"; role_id = "r3" }
      ∷ [];
}

abbrev no_caps : CapabilitySlice
no_caps = record { team_caps = []; org_caps = [] }

remove_org_member-hides_example :
    guard_status
      (build_slice
        (record { kind = "User"; id = "bob" })
        no_caps
        (team (build_team_entity own_team) ∷ []))
      (build_context fresh_state ann)
      Action.team_delete
      (some (team (build_team_entity own_team)))
    ≡ some 404
unfolding Functions.remove_org_member Functions.team_in_org capability_slice queries
remove_org_member-hides_example =
    remove_org_member-hides any_text tables without_bob "o1" "bob"
      (team (build_team_entity own_team) ∷ []) (build_context fresh_state ann) no_caps
      (("bob", no_caps) ∷ []) Action.team_delete (team (build_team_entity own_team)) refl refl
      (its_team own_team refl refl)

-- A new member of the organization, who has joined its default team.
abbrev with_cyd : Store
with_cyd = record tables {
  org_memberships =
      tables.org_memberships ++ (record { org_id = "o1"; user_id = "cyd"; role_id = "r2" } ∷ []);
  team_memberships =
      tables.team_memberships ++ (record { team_id = "t0"; user_id = "cyd"; role_id = "r4" } ∷ []);
}

abbrev viewer_caps : CapabilitySlice
viewer_caps = record { team_caps = ("t0", view ∷ []) ∷ []; org_caps = ("o1", []) ∷ [] }

add_org_member-shows_example :
    guard_status
      (build_slice (record { kind = "User"; id = "cyd" }) viewer_caps [])
      (build_context fresh_state ann)
      Action.org_view
      (some (org (build_org_entity "o1")))
    ≡ none
unfolding Memberships.add_org_member capability_slice queries build_context
add_org_member-shows_example =
    add_org_member-shows "o1" "cyd" any_text "member" tables with_cyd []
      (build_context fresh_state ann) viewer_caps (("cyd", viewer_caps) ∷ []) refl refl refl refl
