-- ===== src/Public/Execution.antt =====
-- The run of a published workflow: who may run it, and what a token of the exchange is good for.
use stackai_authz_service.Prelude.{
  ℕ, ◌+◌, String, ◌≡◌, refl, ◌∙◌, ap, Bool, true, false, ◌&&◌, ◌||◌, not, Option, none, some, [],
  ◌∷◌, arith, leb, ltb, if◌then◌else◌, ◌==◌, eq_iff,
}
use stackai_authz_service.Action
use stackai_authz_service.Entities.{
  literal, EntityRef, Resource, WorkflowEntity, workflow, team, org, EntitySlice, find_resource,
}
use stackai_authz_service.Schema.{applies_to}
use stackai_authz_service.Decision.{
  Decision, allow, deny, engine_error, is_allowed, is_engine_error,
}
use stackai_authz_service.Cedar.{Cedar, IsCedar, IsPlain}
use stackai_authz_service.Policies.{load_policies}
use stackai_authz_service.Engine.{AuthzContext, authorize}
use stackai_authz_service.Rules.{rule}
use stackai_authz_service.Rules.Refinement.{kind_of}
use stackai_authz_service.Rules.Environment.{found-kind}
use stackai_authz_service.Rules.Slices.{member_of_slice}
use stackai_authz_service.Provider.{Database, Memo, slice_for}
use stackai_authz_service.Provider.Fetched.{slice_for-IsSlice, slice_for-principal}
use stackai_authz_service.Principal.{Principal, principal_ref, method_value}
use stackai_authz_service.Errors.{RequestState, error_status}
use stackai_authz_service.Deps.{build_context}
use stackai_authz_service.Deps.Outcomes.{engine-rule, in_slice-find, not_in_slice-find}
use stackai_authz_service.WorkflowToken.{Jwt, issue_workflow_token, verify-issue}
use stackai_authz_service.Public.Context.{run_context, build_context-noted}
use stackai_authz_service.Public.{Settings, note_token, execution_answer, execute_exported_workflow}

abbrev pub workflow_of : String → EntityRef
workflow_of workflow_id = record { kind = "Workflow"; id = workflow_id }

-- The status that the rules demand: 404 for a workflow that the slice lacks, 403 for a run that the
-- rules do not grant.
abbrev pub run_status : EntitySlice → AuthzContext → Option Resource → Option ℕ
run_status s c none = some 404
run_status s c (some e) =
    if rule (member_of_slice s) c Action.workflow_run_exported e then none else some 403

applies-workflow :
    (e : Resource)
    → "Workflow" ≡ kind_of e
    → applies_to Action.workflow_run_exported (kind_of e) ≡ true
unfolding applies_to
applies-workflow (workflow w) h = refl
applies-workflow (team t) h = absurd (ground (arith, eq_iff "Workflow" "Team"))
applies-workflow (org o) h = absurd (ground (arith, eq_iff "Workflow" "Organization"))

execution_answer-status :
    (resource : String) (d : Decision)
    → is_engine_error d ≡ false
    → error_status (execution_answer resource d) ≡ (if is_allowed d then none else some 403)
unfolding error_status
execution_answer-status resource (allow id) h = refl
execution_answer-status resource (deny id) h = refl
execution_answer-status resource (engine_error m) h = ground arith

module _ {Token : Type 0} (is_authorized : Cedar) (cedar : IsCedar is_authorized) (jwt : Jwt Token)
    (db : Database) (settings : Settings) (workflow_id : String) (token : Option Token)
    (p : Principal) (time : ℕ) (st : RequestState) (s : EntitySlice) (memo : Memo) where
  execution-found :
      (found : Option Resource)
      → find_resource (workflow_of workflow_id) s.resources ≡ found
      → slice_for db [] (principal_ref p) (workflow_of workflow_id ∷ []) ≡ some (s, memo)
      → IsPlain (principal_ref p)
      → IsPlain (workflow_of workflow_id)
      → error_status
          (execute_exported_workflow jwt is_authorized load_policies db settings workflow_id token p
            time st).0
        ≡ run_status s (build_context (note_token jwt settings workflow_id token time st) p) found
  unfolding execute_exported_workflow error_status
  execution-found none found fetched plain_p plain_r =
      let away = not_in_slice-find (workflow_of workflow_id) s found in ground (arith, away)
  execution-found (some e) found fetched plain_p plain_r =
      let r = workflow_of workflow_id in
      let valid = slice_for-IsSlice db [] memo (principal_ref p) (r ∷ []) s refl fetched in
      let c = build_context (note_token jwt settings workflow_id token time st) p in
      let here = in_slice-find r s e found in
      let (sound, granted) =
        engine-rule is_authorized cedar Action.workflow_run_exported r s p "" st
          Action.workflow_run_exported e valid
          (slice_for-principal db [] memo (principal_ref p) (r ∷ []) s fetched) found
          (applies-workflow e (found-kind s valid r e found)) plain_p plain_r c in
      rw (fetched, here, execute_exported_workflow)
        (execution_answer-status (literal r)
            (authorize is_authorized load_policies (principal_ref p) Action.workflow_run_exported r
              s c)
            sound
          ∙ rw granted refl)

  -- The run of a published workflow, where the provider returns a slice: 404 if the slice lacks the
  -- workflow; else the rules decide on a context with the caller's method, scopes and organization,
  -- where the password counts as verified exactly if the token of the header decodes now, with the
  -- service's secret and the audience "workflow-access", to claims whose subject is this workflow, and
  -- without a token as the request had it; a run that the rules do not grant is answered 403, and one
  -- that they grant is answered without an error. The references are plain.
  pub execution-status :
      slice_for db [] (principal_ref p) (workflow_of workflow_id ∷ []) ≡ some (s, memo)
      → IsPlain (principal_ref p)
      → IsPlain (workflow_of workflow_id)
      → error_status
          (execute_exported_workflow jwt is_authorized load_policies db settings workflow_id token p
            time st).0
        ≡ run_status s
            (run_context jwt settings workflow_id token time st p)
            (find_resource (workflow_of workflow_id) s.resources)
  execution-status fetched plain_p plain_r =
      execution-found (find_resource (workflow_of workflow_id) s.resources) refl fetched plain_p
        plain_r
      ∙ ap (λ c. run_status s c (find_resource (workflow_of workflow_id) s.resources))
          (build_context-noted jwt settings workflow_id token time st p)

-- The rule of a run by someone without an API key, of a workflow that asks for no membership.
run-rule :
    (member : EntityRef → Bool) (c : AuthzContext) (w : WorkflowEntity)
    → w.exported ≡ true
    → (w.visibility == "org_only") ≡ false
    → (c.auth_method == "api_key") ≡ false
    → rule member c Action.workflow_run_exported (workflow w)
      ≡ (not w.password_protected || c.password_verified)
unfolding rule
run-rule member c w exported visible person = ground arith

module _ {Token : Type 0} (is_authorized : Cedar) (cedar : IsCedar is_authorized) (jwt : Jwt Token)
    (db : Database) (settings : Settings) (issued_for workflow_id : String) (p : Principal)
    (issued time : ℕ) (st : RequestState) (s : EntitySlice) (memo : Memo) (w : WorkflowEntity) where
  -- The run of an exported workflow that is open to all and protected by a password, with a token
  -- that was issued for some workflow, by a caller without an API key: it is granted exactly if the
  -- token is for this workflow, was issued no later than now, and its time to live is not over; else
  -- it is answered 403. The provider returns a slice that holds the workflow, and the references are
  -- plain.
  pub execution-issue :
      slice_for db [] (principal_ref p) (workflow_of workflow_id ∷ []) ≡ some (s, memo)
      → find_resource (workflow_of workflow_id) s.resources ≡ some (workflow w)
      → w.exported ≡ true
      → (w.visibility == "org_only") ≡ false
      → w.password_protected ≡ true
      → (method_value p.auth_method == "api_key") ≡ false
      → IsPlain (principal_ref p)
      → IsPlain (workflow_of workflow_id)
      → error_status
          (execute_exported_workflow jwt is_authorized load_policies db settings workflow_id
            (some (
              issue_workflow_token jwt issued_for settings.token_secret settings.token_ttl_seconds
                issued))
            p
            time
            st).0
        ≡ (if issued_for == workflow_id
              && leb issued time
              && ltb time (issued + settings.token_ttl_seconds)
            then none
            else some 403)
  unfolding build_context
  execution-issue fetched found exported visible protected person plain_p plain_r =
      let token =
        issue_workflow_token jwt issued_for settings.token_secret settings.token_ttl_seconds
          issued in
      let c = build_context (note_token jwt settings workflow_id (some token) time st) p in
      let verified =
        verify-issue jwt issued_for workflow_id settings.token_secret settings.token_ttl_seconds
          issued time in
      execution-found is_authorized cedar jwt db settings workflow_id (some token) p time st s memo
        (some (workflow w)) found fetched plain_p plain_r
      ∙ rw (run-rule (member_of_slice s) c w exported visible person)
          (rw (protected, verified) refl)
