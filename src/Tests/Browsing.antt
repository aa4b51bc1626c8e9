-- ===== src/Tests/Browsing.antt =====
-- The list endpoint on the tables, for a member of the team.
use stackai_authz_service.Prelude.{
  ℕ, String, Bool, false, ◌≡◌, refl, Option, none, some, List, [], ◌∷◌, take, any, arith, ◌==◌,
  lacks,
}
use stackai_authz_service.Action
use stackai_authz_service.Capability.{view}
use stackai_authz_service.Entities.{workflow}
use stackai_authz_service.Cedar.Reader.{reference_cedar, reference_cedar-IsCedar}
use stackai_authz_service.Policies.{load_policies}
use stackai_authz_service.Rules.{rule}
use stackai_authz_service.Rules.Slices.{member_of_slice}
use stackai_authz_service.Provider.{
  CapabilitySlice, WorkflowRow, build_slice, build_workflow_entity, capability_slice,
}
use stackai_authz_service.Principal.{Principal, principal_ref}
use stackai_authz_service.Prefilter.{build_workflow_prefilter, to_postgrest_or}
use stackai_authz_service.Errors.{fresh_state}
use stackai_authz_service.Deps.{build_context}
use stackai_authz_service.Store.{StoredWorkflow}
use stackai_authz_service.Store.Queries
use stackai_authz_service.Store.Queries.{queries}
use stackai_authz_service.Workflows.{list_workflows}
use stackai_authz_service.Workflows.Pages.{IsOrdered, after}
use stackai_authz_service.Workflows.Walk.{walk}
use stackai_authz_service.Workflows.Fetch.{entity}
use stackai_authz_service.Workflows.Shown.{IsQueried}
use stackai_authz_service.Workflows.Stored.{list_workflows-shows}
use stackai_authz_service.Tests.{ann}
use stackai_authz_service.Tests.Tables.{tables, any_text}

abbrev bob : Principal
bob = record ann { subject = "bob" }

abbrev stored_report : StoredWorkflow
stored_report = record { id = "w1"; org_id = "o1"; team_id = "t1"; name = "report" }

abbrev listed : List WorkflowRow
listed = Queries.workflow_row tables stored_report ∷ []

abbrev later : String → String → Bool
later a b = false

abbrev query : String → Option String → ℕ → List WorkflowRow
query text c n = take n (after later c listed)

abbrev bob_caps : CapabilitySlice
bob_caps = record {
  team_caps = ("t0", view ∷ []) ∷ ("t1", view ∷ []) ∷ [];
  org_caps = ("o1", []) ∷ [];
}

queried : IsQueried later query tables (to_postgrest_or (build_workflow_prefilter bob_caps)) listed
unfolding IsOrdered lacks build_workflow_prefilter Queries.workflow_row build_workflow_entity
queried = record {
  ordered = (refl, tt, refl, tt);
  stored = ((stored_report, refl, refl, (refl, refl, refl)), tt);
  complete = λ cs readable same. (ground arith, tt);
  queried = λ c n. refl;
}

list_workflows-shows_example :
    (shown : List WorkflowRow) × (walk
        (list_workflows reference_cedar load_policies
          (queries any_text tables)
          query
          bob
          fresh_state
          1)
        2
        none
      ≡ some shown)
    × (any (λ row. row.id == "w1") shown
        ≡ rule
            (member_of_slice (build_slice (principal_ref bob) bob_caps []))
            (build_context fresh_state bob)
            Action.workflow_view
            (workflow (entity (Queries.workflow_row tables stored_report))))
unfolding capability_slice queries lacks build_workflow_prefilter
list_workflows-shows_example =
    list_workflows-shows reference_cedar reference_cedar-IsCedar any_text tables later query bob
      fresh_state 1 bob_caps (("bob", bob_caps) ∷ []) listed stored_report [] refl refl queried refl
      refl refl (omega arith) (refl, refl, refl)
