-- ===== src/Tests/Requests.antt =====
-- The theorems about sequences of requests, on the tables of the tests.
use stackai_authz_service.Prelude.{String, ◌≡◌, refl, some, List, [], ◌∷◌, lacks}
use stackai_authz_service.Entities.{EntitySlice}
use stackai_authz_service.Cedar.Reader.{reference_cedar, reference_cedar-IsCedar}
use stackai_authz_service.Policies.{load_policies}
use stackai_authz_service.Provider.{Memo, slice_for}
use stackai_authz_service.Principal.{Principal, anonymous_principal}
use stackai_authz_service.Deps.{requires}
use stackai_authz_service.Store.{done}
use stackai_authz_service.Store.Triggers.{check_org_membership_role, check_team_membership_role}
use stackai_authz_service.Store.Queries.{queries}
use stackai_authz_service.Memberships
use stackai_authz_service.Memberships.{is_org_super_admin}
use stackai_authz_service.Service.Resolved.{HasRoleKeys, check-serve_all}
use stackai_authz_service.Service.{
  Request, remove_org_member, change_org_role, create_role, delete_team, perform, serve, serve_all,
}
use stackai_authz_service.Service.SuperAdmin.{IsManaged, serve_all-IsManaged}
use stackai_authz_service.Service.Known.{slice_for-serve_all}
use stackai_authz_service.Service.Joined.{AreJoined, serve_all-AreJoined}
use stackai_authz_service.Principal.{api_key}
use stackai_authz_service.Service.KeyHolders.{serve-api_key}
use stackai_authz_service.Service.Guarded
use stackai_authz_service.Service.Guarded.{AnswersBy, verdict, serve-AnswersBy}
use stackai_authz_service.Tests.{ann, ann_ref}
use stackai_authz_service.Tests.Externals.{hasher}
use stackai_authz_service.Tests.Tables.{
  tables, any_text, ann-IsPlain, team-IsPlain, tables-AreKnown,
}

-- The super-admin tries to step back, and to leave.
abbrev requests : List (Principal × String × Request)
requests =
    (ann, "c1", change_org_role "o1" "ann" "member")
    ∷ (ann, "c2", create_role "o1" "auditor" "org" ("view" ∷ []) "r5")
    ∷ (ann, "c3", remove_org_member "o1" "ann")
    ∷ []

serve_all-IsManaged_example :
    IsManaged "o1" (serve_all reference_cedar load_policies hasher any_text requests tables)
unfolding IsManaged
serve_all-IsManaged_example =
    serve_all-IsManaged "o1" reference_cedar load_policies hasher any_text requests tables refl

serve_all-AreJoined_example :
    AreJoined (serve_all reference_cedar load_policies hasher any_text requests tables)
unfolding AreJoined
serve_all-AreJoined_example =
    serve_all-AreJoined reference_cedar load_policies hasher any_text requests tables
      ((refl, (refl, tt)), (refl, (refl, tt)))

slice_for-serve_all_example :
    (slice : EntitySlice) × (memo : Memo) × (slice_for
        (queries any_text (serve_all reference_cedar load_policies hasher any_text requests tables))
        []
        ann_ref
        (record { kind = "Workflow"; id = "w1" } ∷ [])
      ≡ some (slice, memo))
slice_for-serve_all_example =
    slice_for-serve_all reference_cedar load_policies hasher any_text requests tables ann_ref
      (record { kind = "Workflow"; id = "w1" } ∷ []) tables-AreKnown

serve-AnswersBy_example :
    (slice : EntitySlice) × (memo : Memo) × (slice_for
        (queries any_text tables)
        []
        ann_ref
        (record { kind = "Team"; id = "t1" } ∷ [])
      ≡ some (slice, memo))
    × AnswersBy
        (verdict reference_cedar reference_cedar-IsCedar hasher any_text ann "c1"
          (delete_team "t1")
          tables
          slice)
        (serve reference_cedar load_policies hasher any_text ann "c1" (delete_team "t1") tables)
        (perform hasher "ann" (delete_team "t1") tables)
        tables
unfolding lacks Guarded.target
serve-AnswersBy_example =
    serve-AnswersBy reference_cedar reference_cedar-IsCedar hasher any_text ann "c1"
      (delete_team "t1") tables tables-AreKnown ann-IsPlain team-IsPlain

check-serve_all_example :
    HasRoleKeys tables
    × (check_org_membership_role tables (record { org_id = "o1"; user_id = "bob"; role_id = "r2" })
        ≡ done tt)
    × (check_team_membership_role tables
          (record { team_id = "t1"; user_id = "bob"; role_id = "r3" })
        ≡ done tt)
unfolding Memberships.resolve_role_id Memberships.team_org_id serve_all serve requires
check-serve_all_example =
    check-serve_all reference_cedar load_policies hasher any_text
      ((anonymous_principal, "c0", delete_team "t1") ∷ []) tables tables "o1" "t1" "bob" "member"
      "admin" "r2" "r3" (refl, (refl, (refl, (refl, tt)))) refl refl refl refl

-- ann's key, which may view and run.
abbrev ann_key : Principal
ann_key = record ann {
  auth_method = api_key;
  api_key_scopes = "workflow:run" ∷ [];
  api_key_org_id = some "o1";
}

serve-api_key_example :
    (serve reference_cedar load_policies hasher any_text ann_key "c1" (delete_team "t1") tables).1
    ≡ tables
unfolding lacks Guarded.target
serve-api_key_example =
    serve-api_key reference_cedar reference_cedar-IsCedar hasher any_text ann_key "c1"
      (delete_team "t1") tables tables-AreKnown refl (refl, tt) ann-IsPlain team-IsPlain
