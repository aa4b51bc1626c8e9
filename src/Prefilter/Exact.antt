-- ===== src/Prefilter/Exact.antt =====
-- The pre-filter against the policy engine, on slices that the provider builds.
use stackai_authz_service.Prelude.{◌≡◌, refl, ◌∙◌, ◌&&◌, Option, some, List, All, arith}
use stackai_authz_service.Action
use stackai_authz_service.Capability
use stackai_authz_service.Entities.{EntityRef, Resource, workflow, find_resource}
use stackai_authz_service.Schema.{applies_to}
use stackai_authz_service.Decision.{is_allowed}
use stackai_authz_service.Cedar.{Cedar, IsCedar, IsPlain}
use stackai_authz_service.Policies.{load_policies}
use stackai_authz_service.Engine.{AuthzContext, authorize}
use stackai_authz_service.Rules.{rule, key_permits}
use stackai_authz_service.Rules.Slices.{member_of_slice}
use stackai_authz_service.Rules.Decisions.{authorize-rule}
use stackai_authz_service.Provider.{
  CapabilitySlice, WorkflowRow, ExportRow, build_workflow_entity, build_slice,
}
use stackai_authz_service.Provider.Refs.{mem_ref-team, mem_ref-org}
use stackai_authz_service.Provider.Fetched.{IsTyped, build_slice-IsSlice, member-cap}
use stackai_authz_service.Prefilter.{matches, build_workflow_prefilter}

-- The reference of a workflow row.
abbrev pub workflow_ref : WorkflowRow → EntityRef
workflow_ref row = record { kind = "Workflow"; id = row.id }

module _ (p : EntityRef) (caps : CapabilitySlice) (es : List Resource) (c : AuthzContext)
    (row : WorkflowRow) (export : Option ExportRow) where
  pub rule-matches :
      p.kind ≡ "User"
      → rule
          (member_of_slice (build_slice p caps es))
          c
          Action.workflow_view
          (workflow (build_workflow_entity row export))
        ≡ (matches (build_workflow_prefilter caps) (build_workflow_entity row export)
            && key_permits c Action.workflow_view (workflow (build_workflow_entity row export)))
  unfolding rule matches build_workflow_prefilter build_workflow_entity
  rule-matches user = ground (
    arith,
    member-cap p caps es Capability.view "team" row.team_id user,
    member-cap p caps es Capability.manage_org "org" row.org_id user,
    mem_ref-team Capability.view row.team_id caps,
    mem_ref-org Capability.manage_org row.org_id caps,
  )

module _ (is_authorized : Cedar) (cedar : IsCedar is_authorized) where
  -- For a user and a workflow of the slice that the provider builds from the user's capabilities, the
  -- engine allows `WorkflowView` exactly if the pre-filter matches the workflow and, for an API key,
  -- the key permits it. So the filter hides no row that the engine would allow, and for other
  -- callers lets no other row through. The references are plain.
  pub authorize-matches :
      (p : EntityRef) (caps : CapabilitySlice) (es : List Resource) (c : AuthzContext)
      (row : WorkflowRow) (export : Option ExportRow)
      → p.kind ≡ "User"
      → All IsTyped es
      → find_resource (workflow_ref row) es ≡ some (workflow (build_workflow_entity row export))
      → IsPlain p
      → IsPlain (workflow_ref row)
      → is_allowed (
          authorize is_authorized load_policies p Action.workflow_view
            (workflow_ref row)
            (build_slice p caps es)
            c)
        ≡ (matches (build_workflow_prefilter caps) (build_workflow_entity row export)
            && key_permits c Action.workflow_view (workflow (build_workflow_entity row export)))
  unfolding build_slice
  authorize-matches p caps es c row export user typed found plain_p plain_r =
      (authorize-rule is_authorized cedar Action.workflow_view (workflow_ref row)
        (workflow (build_workflow_entity row export)) (build_slice p caps es) c
        (build_slice-IsSlice p caps es user typed) found (unfold applies_to in refl) plain_p
        plain_r).1
      ∙ rule-matches p caps es c row export user
