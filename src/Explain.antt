-- ===== src/Explain.antt =====
-- src/app/api/routers/authz.py: the endpoint that explains a decision. It changes nothing.
pub mod Agreement
use stackai_authz_service.Prelude.{
  String, Bool, Option, none, some, List, [], ◌∷◌, map, sorted, mem_text, if◌then◌else◌,
}
use stackai_authz_service.Action.{Action}
use stackai_authz_service.Entities.{
  EntityRef, literal, Value, Resource, resource_to_cedar, EntitySlice, find_resource,
}
use stackai_authz_service.Decision.{Decision, allow, deny, engine_error, policy_id, is_allowed}
use stackai_authz_service.Cedar.{Cedar, Policy}
use stackai_authz_service.Engine.{authorize}
use stackai_authz_service.Provider.{Database, slice_for}
use stackai_authz_service.Principal.{Principal, principal_ref}
use stackai_authz_service.Errors.{
  Result, ok, err, RequestState, resource_not_visible, authz_engine_error, crash,
}
use stackai_authz_service.Deps.{visibility_action, build_context, requires_authenticated}

pub record ExplainResponse : Type 0 where
  pub decision : String
  pub policy_id : Option String
  pub principal_capabilities : List String
  pub resource_attributes : List (String × Value)

-- The elements of a set, each once.
abbrev pub distinct : List String → List String
distinct [] = []
distinct (x ∷ xs) = let rest = distinct xs in if mem_text x rest then rest else x ∷ rest

abbrev pub response : String → Option String → Resource → EntitySlice → ExplainResponse
unfolding sorted literal resource_to_cedar
response verdict id e slice = record {
  decision = verdict;
  policy_id = id;
  principal_capabilities = sorted (distinct (map literal slice.principal.capabilities));
  resource_attributes = (resource_to_cedar e).attrs;
}

-- The answer that a decision about the requested action leads to.
unfoldable pub explained : Resource → EntitySlice → Decision → Result ExplainResponse
explained e slice (engine_error message) = err (authz_engine_error message)
explained e slice (allow id) = ok (response "Allow" id e slice)
explained e slice (deny id) = ok (response "Deny" id e slice)

module _ (is_authorized : Cedar) (policies : List Policy) where
  -- From the decision about the visibility on
  unfoldable pub explain_visible :
      Action
      → EntityRef
      → Resource
      → EntitySlice
      → Principal
      → RequestState
      → Decision
      → Result ExplainResponse
  unfolding explained build_context literal
  explain_visible action resource e slice p s (engine_error message) =
      err (authz_engine_error message)
  explain_visible action resource e slice p s (deny id) =
      err (resource_not_visible (literal resource))
  explain_visible action resource e slice p s (allow id) =
      explained e slice (
        authorize is_authorized policies (principal_ref p) action resource slice
          (build_context s p))

  unfoldable pub explain_found :
      Action
      → EntityRef
      → EntitySlice
      → Principal
      → RequestState
      → Option Resource
      → Result ExplainResponse
  unfolding explain_visible visibility_action build_context literal
  explain_found action resource slice p s none = err (resource_not_visible (literal resource))
  explain_found action resource slice p s (some e) = elim (visibility_action resource.kind) [
    | none ↦ err crash
    | some visibility ↦ explain_visible action resource e slice p s (
        authorize is_authorized policies (principal_ref p) visibility resource slice
          (build_context s p))
  ]

  -- `explain`, behind `requires_authenticated`
  unfoldable pub explain :
      Database → Action → EntityRef → Principal → RequestState → Result ExplainResponse
  unfolding requires_authenticated explain_found find_resource
  explain db action resource p s = elim (requires_authenticated p) [
    | err e ↦ err e
    | ok u ↦ elim (slice_for db [] (principal_ref p) (resource ∷ [])) [
      | none ↦ err crash
      | some (slice, memo) ↦
          explain_found action resource slice p s (find_resource resource slice.resources)
    ]
  ]
