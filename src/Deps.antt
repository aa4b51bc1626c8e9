-- ===== src/Deps.antt =====
-- src/app/api/deps.py: the dependencies that every guarded route runs before its handler.
pub mod Outcomes
pub mod Trail
pub mod Requires
use stackai_authz_service.Prelude.{
  String, Bool, true, false, not, any, Option, none, some, List, [], ◌∷◌, ◌++◌, lookup,
  if◌then◌else◌, ◌==◌,
}
use stackai_authz_service.Action
use stackai_authz_service.Action.{Action, action_value}
use stackai_authz_service.Entities.{
  EntityRef, ref_eq, literal, Resource, workflow, team, org, resource_ref, EntitySlice,
  find_resource,
}
use stackai_authz_service.Decision.{Decision, allow, deny, engine_error, policy_id}
use stackai_authz_service.Cedar.{Cedar, Policy}
use stackai_authz_service.Engine.{AuthzContext, authorize}
use stackai_authz_service.Provider.{Database, Memo, slice_for}
use stackai_authz_service.Principal.{Principal, method_value, principal_ref, is_anonymous}
use stackai_authz_service.Audit.{AuditRow, should_record, audit_row}
use stackai_authz_service.Errors.{
  Result, ok, err, RequestState, authz_denied, resource_not_visible, authz_engine_error,
  authentication_failed, crash,
}

-- `VISIBILITY_ACTION`; `none` is a `KeyError`.
unfoldable pub visibility_action : String → Option Action
visibility_action kind =
    if kind == "Workflow"
    then some Action.workflow_view
    else if kind == "Team"
    then some Action.team_view
    else if kind == "Organization"
    then some Action.org_view
    else none

pub record ResourceSpec : Type 0 where
  pub entity_type : String
  pub path_param : Option String
  pub literal_id : Option String

-- `Resource.workflow()`, `Resource.team()`, `Resource.org()`
abbrev pub workflow_spec : ResourceSpec
workflow_spec = record {
  entity_type = "Workflow";
  path_param = some "workflow_id";
  literal_id = none;
}

abbrev pub team_spec : ResourceSpec
team_spec = record { entity_type = "Team"; path_param = some "team_id"; literal_id = none }

abbrev pub org_spec : ResourceSpec
org_spec = record { entity_type = "Organization"; path_param = some "org_id"; literal_id = none }

abbrev ref_of : String → Option String → Option EntityRef
ref_of kind none = none
ref_of kind (some i) = some (record { kind = kind; id = i })

abbrev param_ref : String → Option String → List (String × String) → Option EntityRef
param_ref kind none params = none
param_ref kind (some name) params = ref_of kind (lookup name params)

abbrev literal_or_param : ResourceSpec → Option String → List (String × String) → Option EntityRef
literal_or_param spec (some i) params = some (record { kind = spec.entity_type; id = i })
literal_or_param spec none params = param_ref spec.entity_type spec.path_param params

-- `ResourceSpec.resolve`; `none` is a failed assertion or a missing path parameter.
unfoldable pub resolve : ResourceSpec → List (String × String) → Option EntityRef
resolve spec params = literal_or_param spec spec.literal_id params

abbrev pub or_false : Option Bool → Bool
or_false none = false
or_false (some b) = b

unfoldable pub build_context : RequestState → Principal → AuthzContext
unfolding method_value
build_context s p = record {
  auth_method = method_value p.auth_method;
  password_verified = or_false s.password_verified;
  api_key_scopes = p.api_key_scopes;
  api_key_org_id = p.api_key_org_id;
}

abbrev org_id_of : Option Resource → Option String
org_id_of none = none
org_id_of (some (workflow w)) = some w.org.id
org_id_of (some (team t)) = some t.org.id
org_id_of (some (org o)) = some o.ref.id

-- `_org_id_for`
unfoldable pub org_id_for : EntityRef → EntitySlice → Option String
unfolding find_resource
org_id_for resource slice = org_id_of (find_resource resource slice.resources)

-- `_maybe_audit`, with the name of the request's correlation id
unfoldable pub maybe_audit :
    Action → EntityRef → EntitySlice → Principal → Decision → String → RequestState → RequestState
unfolding should_record audit_row org_id_for method_value
maybe_audit action resource slice p decision cid s =
    if should_record action decision
    then record s {
      background_tasks =
          s.background_tasks
          ++ audit_row (org_id_for resource slice) p.subject (method_value p.auth_method) action
              resource.kind resource.id decision cid
            ∷ [];
    }
    else s

-- `requires_authenticated`
unfoldable pub requires_authenticated : Principal → Result (Unit {0})
requires_authenticated p =
    if is_anonymous p then err (authentication_failed "Bearer" "authentication required") else ok tt

-- `any(e.ref == resource for e in slice_.resources)`
unfoldable pub in_slice : EntityRef → EntitySlice → Bool
unfolding ref_eq resource_ref
in_slice resource slice = any (λ e. ref_eq (resource_ref e) resource) slice.resources

module _ (is_authorized : Cedar) (policies : List Policy) where
  -- What follows the visibility check: the decision about the action itself.
  unfoldable pub act :
      Action
      → EntityRef
      → EntitySlice
      → Principal
      → String
      → RequestState
      → Decision
      → Result (Unit {0}) × RequestState
  unfolding maybe_audit action_value literal
  act action resource slice p cid s (engine_error message) = (
    err (authz_engine_error message),
    maybe_audit action resource slice p (engine_error message) cid s,
  )
  act action resource slice p cid s (deny id) = (
    err (authz_denied id (action_value action) (literal resource)),
    maybe_audit action resource slice p (deny id) cid s,
  )
  act action resource slice p cid s (allow id) = (
    ok tt,
    record (maybe_audit action resource slice p (allow id) cid s) {
      authz_policy_id = some id;
      authz_action = some action;
    },
  )

  -- The visibility check and, where it passes, the rest.
  unfoldable pub check_visible :
      Action
      → Action
      → EntityRef
      → EntitySlice
      → Principal
      → String
      → RequestState
      → Decision
      → Result (Unit {0}) × RequestState
  unfolding maybe_audit act build_context literal
  check_visible visibility action resource slice p cid s (engine_error message) = (
    err (authz_engine_error message),
    maybe_audit visibility resource slice p (engine_error message) cid s,
  )
  check_visible visibility action resource slice p cid s (deny id) = (
    err (resource_not_visible (literal resource)),
    maybe_audit visibility resource slice p (deny id) cid s,
  )
  check_visible visibility action resource slice p cid s (allow id) =
      act action resource slice p cid s (
        authorize is_authorized policies (principal_ref p) action resource slice
          (build_context s p))

  -- From the slice on: a resource that it lacks is not visible.
  unfoldable pub decide :
      Action
      → EntityRef
      → EntitySlice
      → Principal
      → String
      → RequestState
      → Result (Unit {0}) × RequestState
  unfolding in_slice visibility_action check_visible build_context literal
  decide action resource slice p cid s =
      if not (in_slice resource slice)
      then (err (resource_not_visible (literal resource)), s)
      else elim (visibility_action resource.kind) [
        | none ↦ (err crash, s)
        | some visibility ↦ check_visible visibility action resource slice p cid s (
            authorize is_authorized policies (principal_ref p) visibility resource slice
              (build_context s p))
      ]

  -- `requires(action, resource_spec)`. `cid` is the minted correlation id, `params` are the path
  -- parameters; the provider is new with the request, so its memo starts empty.
  unfoldable pub requires :
      Database
      → Action
      → ResourceSpec
      → Principal
      → String
      → List (String × String)
      → RequestState
      → Result (Unit {0}) × RequestState
  unfolding resolve decide
  requires db action spec p cid params s =
      if is_anonymous p
      then (err (authentication_failed "Bearer" "authentication required"), s)
      else let stashed = record s { correlation_id = some cid; audit_tasks = true } in
        elim (resolve spec params) [
          | none ↦ (err crash, stashed)
          | some resource ↦ elim (slice_for db [] (principal_ref p) (resource ∷ [])) [
            | none ↦ (err crash, stashed)
            | some (slice, memo) ↦ decide action resource slice p cid stashed
          ]
        ]
