-- ===== src/Tests/Access.antt =====
-- The theorems about decisions and guarded routes, on the data of the tests.
use stackai_authz_service.Prelude.{
  true, false, ◌≡◌, refl, sym, ap, Option, none, some, [], ◌∷◌, lacks, ◌↔◌,
}
use stackai_authz_service.Action
use stackai_authz_service.Action.{mem_action}
use stackai_authz_service.Schema.{applies_to}
use stackai_authz_service.Entities.{Resource, find_resource, resource_ref}
use stackai_authz_service.Cedar.{IsPlain}
use stackai_authz_service.Cedar.Reader.{reference_cedar, reference_cedar-IsCedar}
use stackai_authz_service.Policies.{load_policies}
use stackai_authz_service.Decision.{is_allowed, is_engine_error}
use stackai_authz_service.Engine.{AuthzContext, authorize}
use stackai_authz_service.Rules.{rule, org_of, key_permits}
use stackai_authz_service.Rules.Refinement.{kind_of}
use stackai_authz_service.Rules.Slices.{IsSlice, member_of_slice}
use stackai_authz_service.Rules.Decisions.{authorize-rule}
use stackai_authz_service.Rules.Keys.{authorize-key, key_actions}
use stackai_authz_service.Provider.{slice_for, build_slice, build_workflow_entity}
use stackai_authz_service.Provider.Fetched.{slice_for-IsSlice, build_slice-IsSlice}
use stackai_authz_service.Prefilter.{matches, build_workflow_prefilter}
use stackai_authz_service.Prefilter.Exact.{authorize-matches}
use stackai_authz_service.Errors.{ok, fresh_state, error_status}
use stackai_authz_service.Deps.{workflow_spec, resolve, build_context, decide, requires}
use stackai_authz_service.Deps.Outcomes.{seeing}
use stackai_authz_service.Deps.Requires.{requires-status}
use stackai_authz_service.Deps.Trail.{decide-trail, row_for, reported, decision_on}
use stackai_authz_service.Explain.{explain}
use stackai_authz_service.Explain.Agreement.{outcome, explain-outcome, explain-requires}
use stackai_authz_service.Workflows.{judge_rows}
use stackai_authz_service.Workflows.Judged.{judge_rows-visible}
use stackai_authz_service.Tests.{
  export_row, workflow_row, database, ann, ann_ref, target, ann_caps, resource, slice, after,
}

abbrev context : AuthzContext
unfolding build_context
context = build_context fresh_state ann

slice-IsSlice : IsSlice slice
unfolding build_slice resource resource_ref
slice-IsSlice = build_slice-IsSlice ann_ref ann_caps (resource ∷ []) refl (refl, tt)

found : find_resource target slice.resources ≡ some resource
unfolding find_resource build_slice build_workflow_entity
found = refl

ann-IsPlain : IsPlain ann_ref
unfolding lacks
ann-IsPlain = (refl, refl, refl)

target-IsPlain : IsPlain target
unfolding lacks
target-IsPlain = (refl, refl, refl)

fetched : slice_for database [] ann_ref (target ∷ []) ≡ some (slice, after)
unfolding slice_for build_slice build_workflow_entity
fetched = refl

authorize-rule_example :
    (is_engine_error
        (authorize reference_cedar load_policies ann_ref Action.workflow_run target slice context)
      ≡ false)
    × (is_allowed
          (authorize reference_cedar load_policies ann_ref Action.workflow_run target slice context)
        ≡ true)
unfolding rule member_of_slice build_slice build_workflow_entity build_context applies_to
authorize-rule_example =
    authorize-rule reference_cedar reference_cedar-IsCedar Action.workflow_run target resource slice
      context slice-IsSlice found refl ann-IsPlain target-IsPlain

slice_for-IsSlice_example : IsSlice slice
slice_for-IsSlice_example =
    slice_for-IsSlice database [] after ann_ref (target ∷ []) slice refl fetched

delete_fits :
    (e : Resource)
    → find_resource target slice.resources ≡ some e
    → applies_to Action.workflow_delete (kind_of e) ≡ true
unfolding applies_to find_resource build_slice build_workflow_entity
delete_fits e h =
    ap
      (λ (o : Option Resource). elim o [
        | none ↦ true
        | some x ↦ applies_to Action.workflow_delete (kind_of x)
      ])
      (sym h)

requires-status_example :
    error_status
      (requires reference_cedar load_policies database Action.workflow_delete workflow_spec ann "c1"
        (("workflow_id", "w1") ∷ [])
        fresh_state).0
    ≡ some 403
unfolding rule member_of_slice build_slice build_workflow_entity build_context applies_to resolve
    find_resource seeing
requires-status_example =
    requires-status reference_cedar reference_cedar-IsCedar database Action.workflow_delete
      workflow_spec ann "c1" (("workflow_id", "w1") ∷ []) fresh_state target slice after refl
      fetched delete_fits ann-IsPlain target-IsPlain

-- The viewer's key may not delete, and is an API key of the organization with the scope to run.
abbrev key_context : AuthzContext
key_context = record {
  auth_method = "api_key";
  password_verified = false;
  api_key_scopes = "workflow:run" ∷ [];
  api_key_org_id = some "o1";
}

key_run :
    is_allowed
      (authorize reference_cedar load_policies ann_ref Action.workflow_run target slice key_context)
    ≡ true
unfolding rule member_of_slice build_slice build_workflow_entity applies_to resource
key_run =
    (authorize-rule reference_cedar reference_cedar-IsCedar Action.workflow_run target resource
      slice key_context slice-IsSlice found refl ann-IsPlain target-IsPlain).1

authorize-key_example :
    (key_context.api_key_org_id ≡ some (org_of resource).id)
    × (mem_action Action.workflow_run key_actions ≡ true)
unfolding applies_to resource slice
authorize-key_example =
    authorize-key reference_cedar reference_cedar-IsCedar Action.workflow_run target resource slice
      key_context slice-IsSlice found refl ann-IsPlain target-IsPlain refl (refl, tt) key_run

authorize-matches_example :
    is_allowed
      (authorize reference_cedar load_policies ann_ref Action.workflow_view target slice context)
    ≡ true
unfolding matches build_workflow_prefilter build_workflow_entity build_context resource build_slice
    resource_ref key_permits
authorize-matches_example =
    authorize-matches reference_cedar reference_cedar-IsCedar ann_ref ann_caps (resource ∷ [])
      context workflow_row (some export_row) refl (refl, tt) found ann-IsPlain target-IsPlain

decide-trail_example :
    (decide reference_cedar load_policies Action.workflow_delete target slice ann "c1"
      fresh_state).1.background_tasks
    ≡ row_for resource target ann "c1" Action.workflow_delete false (
        reported (
          decision_on reference_cedar load_policies Action.workflow_delete target slice ann "c1"
            fresh_state Action.workflow_delete))
      ∷ []
unfolding rule member_of_slice build_slice build_workflow_entity build_context applies_to resource
    seeing
decide-trail_example =
    decide-trail reference_cedar reference_cedar-IsCedar Action.workflow_delete target slice ann
      "c1" fresh_state resource slice-IsSlice refl found refl ann-IsPlain target-IsPlain

judge_rows-visible_example :
    judge_rows reference_cedar load_policies database ann fresh_state [] (workflow_row ∷ [])
    ≡ ok (workflow_row ∷ [], after)
unfolding rule member_of_slice build_slice build_workflow_entity build_context resource resource_ref
judge_rows-visible_example =
    judge_rows-visible reference_cedar reference_cedar-IsCedar ann fresh_state
      (λ row. build_workflow_entity row (some export_row)) slice database [] after
      (workflow_row ∷ []) fetched ((found, target-IsPlain), tt) ann-IsPlain

explain-outcome_example :
    outcome
      (explain reference_cedar load_policies database Action.workflow_delete target ann fresh_state)
    ≡ (none, some "Deny")
unfolding rule member_of_slice build_slice build_workflow_entity build_context find_resource seeing
explain-outcome_example =
    explain-outcome reference_cedar reference_cedar-IsCedar Action.workflow_delete target ann
      fresh_state slice database after fetched delete_fits ann-IsPlain target-IsPlain

explain-requires_example :
    (outcome (
        explain reference_cedar load_policies database Action.workflow_delete target ann
          fresh_state)).1
      ≡ some "Allow"
    ↔ error_status
        (requires reference_cedar load_policies database Action.workflow_delete workflow_spec ann
          "c1"
          (("workflow_id", "w1") ∷ [])
          fresh_state).0
      ≡ none
unfolding resolve
explain-requires_example =
    explain-requires reference_cedar reference_cedar-IsCedar Action.workflow_delete target ann
      fresh_state slice database after workflow_spec (("workflow_id", "w1") ∷ []) "c1" refl fetched
      delete_fits ann-IsPlain target-IsPlain
