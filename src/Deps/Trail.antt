-- ===== src/Deps/Trail.antt =====
-- The audit rows that the guard leaves behind.
use stackai_authz_service.Prelude.{
  String, ◌≡◌, refl, sym, ◌∙◌, ap, Bool, true, false, ◌&&◌, not, Option, none, some, List, [], ◌∷◌,
  ◌++◌, arith, if◌then◌else◌, append-nil,
}
use stackai_authz_service.Action.{Action, action_value, mem_action}
use stackai_authz_service.Entities.{
  EntityRef, Resource, workflow, team, org, EntitySlice, find_resource,
}
use stackai_authz_service.Schema.{applies_to}
use stackai_authz_service.Decision.{
  Decision, allow, deny, engine_error, is_allowed, is_engine_error,
}
use stackai_authz_service.Cedar.{Cedar, IsCedar, IsPlain, Policy}
use stackai_authz_service.Policies.{load_policies}
use stackai_authz_service.Engine.{authorize}
use stackai_authz_service.Rules.{rule}
use stackai_authz_service.Rules.Refinement.{kind_of}
use stackai_authz_service.Rules.Environment.{found-kind}
use stackai_authz_service.Rules.Slices.{IsSlice, member_of_slice}
use stackai_authz_service.Principal.{Principal, principal_ref, method_value}
use stackai_authz_service.Audit.{AuditRow, should_record, audit_row, decision_text, read_actions}
use stackai_authz_service.Errors.{Result, RequestState}
use stackai_authz_service.Deps.{
  visibility_action, build_context, maybe_audit, org_id_for, act, check_visible, decide,
}
use stackai_authz_service.Deps.Outcomes.{
  seeing, seeing-applies, visibility_action-kind_of, engine-rule, in_slice-find, decide-visible,
}

-- The organization that a resource belongs to.
abbrev owning_org : Resource → String
owning_org (workflow w) = w.org.id
owning_org (team t) = t.org.id
owning_org (org o) = o.ref.id

-- The policy that the engine reports.
abbrev pub reported : Decision → Option String
reported (allow policy) = policy
reported (deny policy) = policy
reported (engine_error m) = none

-- The row for an action that the rules grant or refuse, by the policy of the given id.
abbrev pub row_for :
    Resource → EntityRef → Principal → String → Action → Bool → Option String → AuditRow
row_for e r p cid a granted policy = record {
  org_id = some (owning_org e);
  principal_id = p.subject;
  auth_method = method_value p.auth_method;
  action = action_value a;
  resource_type = r.kind;
  resource_id = r.id;
  decision = (if granted then "allow" else "deny");
  policy_id = policy;
  correlation_id = cid;
}

-- The actions whose grants leave no row.
unfoldable pub leaves_no_row : Action → Bool
leaves_no_row Action.workflow_view = true
leaves_no_row Action.workflow_list = true
leaves_no_row _ = false

org_id_for-found :
    (r : EntityRef) (s : EntitySlice) (e : Resource)
    → find_resource r s.resources ≡ some e
    → org_id_for r s ≡ some (owning_org e)
unfolding org_id_for
org_id_for-found r s (workflow w) found = rw found refl
org_id_for-found r s (team t) found = rw found refl
org_id_for-found r s (org o) found = rw found refl

audit_row-row_for :
    (r : EntityRef) (s : EntitySlice) (p : Principal) (cid : String) (a : Action) (d : Decision)
    (e : Resource) (granted : Bool)
    → find_resource r s.resources ≡ some e
    → is_engine_error d ≡ false
    → is_allowed d ≡ granted
    → audit_row (org_id_for r s) p.subject (method_value p.auth_method) a r.kind r.id d cid
      ≡ row_for e r p cid a granted (reported d)
unfolding audit_row decision_text
audit_row-row_for r s p cid a (allow id) e granted found sound same =
    rw (org_id_for-found r s e found, sym same) refl
audit_row-row_for r s p cid a (deny id) e granted found sound same =
    rw (org_id_for-found r s e found, sym same) refl
audit_row-row_for r s p cid a (engine_error m) e granted found sound same = absurd (ground arith)

module _ (is_authorized : Cedar) (policies : List Policy) (action : Action) (r : EntityRef)
    (s : EntitySlice) (p : Principal) (cid : String) (st : RequestState) where
  -- The decision of the engine about an action.
  abbrev pub decision_on : Action → Decision
  decision_on a = authorize is_authorized policies (principal_ref p) a r s (build_context st p)

  abbrev tasks_of : Result (Unit {0}) × RequestState → List AuditRow
  tasks_of x = x.1.background_tasks

  abbrev recorded : Action → Decision → List AuditRow
  recorded a d =
      if should_record a d
      then audit_row (org_id_for r s) p.subject (method_value p.auth_method) a r.kind r.id d cid
        ∷ []
      else []

  maybe_audit-tasks :
      (a : Action) (d : Decision)
      → (maybe_audit a r s p d cid st).background_tasks ≡ st.background_tasks ++ recorded a d
  unfolding maybe_audit
  maybe_audit-tasks a d = ground (arith, append-nil st.background_tasks)

  act-tasks :
      (d : Decision)
      → tasks_of (act is_authorized policies action r s p cid st d)
        ≡ st.background_tasks ++ recorded action d
  unfolding act
  act-tasks (allow id) = maybe_audit-tasks action (allow id)
  act-tasks (deny id) = maybe_audit-tasks action (deny id)
  act-tasks (engine_error m) = maybe_audit-tasks action (engine_error m)

  check_visible-tasks :
      (v : Action) (d : Decision)
      → tasks_of (check_visible is_authorized policies v action r s p cid st d)
        ≡ st.background_tasks
          ++ (if is_allowed d then recorded action (decision_on action) else recorded v d)
  unfolding check_visible
  check_visible-tasks v (allow id) = act-tasks (decision_on action)
  check_visible-tasks v (deny id) = maybe_audit-tasks v (deny id)
  check_visible-tasks v (engine_error m) = maybe_audit-tasks v (engine_error m)

mem_action-leaves_no_row : (a : Action) → mem_action a read_actions ≡ leaves_no_row a
unfolding mem_action leaves_no_row
mem_action-leaves_no_row Action.workflow_view = refl
mem_action-leaves_no_row _ = refl

should_record_lem :
    (a : Action) (d : Decision) → should_record a d ≡ not (is_allowed d && leaves_no_row a)
unfolding should_record
should_record_lem a (allow id) = ground (arith, mem_action-leaves_no_row a)
should_record_lem a (deny id) = refl
should_record_lem a (engine_error m) = refl

module _ (is_authorized : Cedar) (cedar : IsCedar is_authorized) where
  -- For a resource that the slice holds, the guard adds to the audit tasks one row for the decision
  -- about seeing the resource where the rules hide it, and else one row for the decision about the
  -- action, which is left out exactly where the rules grant `WorkflowView` or `WorkflowList`; a
  -- grant of `OrgView` or `TeamView` leaves a row. A row names the organization of the resource, the
  -- caller's subject and method, the action, the resource, "allow" or "deny" as the rules decide,
  -- the policy that the engine reports, and the correlation id of the request. The slice is well
  -- formed and the principal's, the action fits the type of the resource, and the references are
  -- plain.
  pub decide-trail :
      (action : Action) (r : EntityRef) (s : EntitySlice) (p : Principal) (cid : String)
      (st : RequestState) (e : Resource)
      → IsSlice s
      → s.principal.ref ≡ principal_ref p
      → find_resource r s.resources ≡ some e
      → applies_to action (kind_of e) ≡ true
      → IsPlain (principal_ref p)
      → IsPlain r
      → (decide is_authorized load_policies action r s p cid st).1.background_tasks
        ≡ st.background_tasks
          ++ (if rule (member_of_slice s) (build_context st p) (seeing e) e
              then (if rule (member_of_slice s) (build_context st p) action e
                    && leaves_no_row action
                  then []
                  else row_for e r p cid action
                      (rule (member_of_slice s) (build_context st p) action e)
                      (reported
                        (decision_on is_authorized load_policies action r s p cid st action))
                    ∷ [])
              else row_for e r p cid (seeing e) false (
                  reported (decision_on is_authorized load_policies action r s p cid st (seeing e)))
                ∷ [])
  decide-trail action r s p cid st e valid same found applies plain_p plain_r =
      let c = build_context st p in
      let (sound, seen) =
        engine-rule is_authorized cedar action r s p cid st (seeing e) e valid same found
          (seeing-applies e) plain_p plain_r c in
      let (sound', acted) =
        engine-rule is_authorized cedar action r s p cid st action e valid same found applies
          plain_p plain_r c in
      ap (λ (x : Result (Unit {0}) × RequestState). x.1.background_tasks)
        (decide-visible is_authorized cedar action r s p cid st (seeing e)
          (in_slice-find r s e found)
          (ap visibility_action (found-kind s valid r e found) ∙ visibility_action-kind_of e))
      ∙ check_visible-tasks is_authorized load_policies action r s p cid st (seeing e)
          (decision_on is_authorized load_policies action r s p cid st (seeing e))
      ∙ ap (λ (rows : List AuditRow). st.background_tasks ++ rows)
          (ground (
            arith,
            audit_row-row_for r s p cid action
                (decision_on is_authorized load_policies action r s p cid st action) e
                (rule (member_of_slice s) c action e) found sound' acted,
            audit_row-row_for r s p cid (seeing e)
                (decision_on is_authorized load_policies action r s p cid st (seeing e)) e
                (rule (member_of_slice s) c (seeing e) e) found sound seen,
            should_record_lem action
                (decision_on is_authorized load_policies action r s p cid st action),
            should_record_lem (seeing e)
                (decision_on is_authorized load_policies action r s p cid st (seeing e)),
          ))
