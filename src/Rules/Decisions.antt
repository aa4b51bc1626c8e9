-- ===== src/Rules/Decisions.antt =====
-- `PolicyEngine` on the policy files and a well-formed slice answers by the access rules.
use stackai_authz_service.Prelude.{
  ◌≡◌, refl, ◌∙◌, ap, Bool, true, false, some, List, arith, is_empty, not, ◌&&◌, lacks,
}
use stackai_authz_service.Action.{Action, action_value}
use stackai_authz_service.Entities.{EntityRef, Resource, EntitySlice, find_resource}
use stackai_authz_service.Schema.{applies_to}
use stackai_authz_service.Decision.{is_allowed, is_engine_error}
use stackai_authz_service.Cedar.{
  Cedar, IsCedar, IsPlain, Policy, request, action_ref, errored, allowed,
}
use stackai_authz_service.Policies.{load_policies}
use stackai_authz_service.Engine.{AuthzContext, context_to_cedar, authorize_raw, authorize}
use stackai_authz_service.Rules.{rule}
use stackai_authz_service.Rules.Refinement.{kind_of, errored-view_of, allowed-view_of}
use stackai_authz_service.Rules.Environment.{env_of-slice}
use stackai_authz_service.Rules.Slices.{IsSlice, member_of_slice, all_entities}

action-IsPlain : (a : Action) → IsPlain (action_ref (action_value a))
unfolding action_value lacks
action-IsPlain Action.org_add_user = (refl, refl, refl)
action-IsPlain _ = (refl, refl, refl)

module _ (is_authorized : Cedar) (policies : List Policy) where
  authorize_verdict :
      (p : EntityRef) (a : Action) (r : EntityRef) (s : EntitySlice) (c : AuthzContext)
      (result_allowed no_errors : Bool)
      → (is_authorized
          (request p (action_ref (action_value a)) r (context_to_cedar c (some a)))
          policies
          (all_entities s)).allowed
        ≡ result_allowed
      → is_empty
          (is_authorized
            (request p (action_ref (action_value a)) r (context_to_cedar c (some a)))
            policies
            (all_entities s)).errors
        ≡ no_errors
      → (is_engine_error (authorize is_authorized policies p a r s c) ≡ not no_errors)
        × (is_allowed (authorize is_authorized policies p a r s c) ≡ (no_errors && result_allowed))
  unfolding authorize authorize_raw
  authorize_verdict p a r s c result_allowed no_errors h k = ground arith

module _ (is_authorized : Cedar) (cedar : IsCedar is_authorized) where
  -- For a request on a resource that the slice holds, whose type the schema declares for the action,
  -- the engine never answers with an evaluation error, and it allows the request exactly if the
  -- access rules grant it. The slice is well formed, the references are plain (no colon in the type,
  -- no quote or backslash in the id), and `cedar` is the documented behaviour of the library.
  pub authorize-rule :
      (a : Action) (r : EntityRef) (e : Resource) (s : EntitySlice) (c : AuthzContext)
      → IsSlice s
      → find_resource r s.resources ≡ some e
      → applies_to a (kind_of e) ≡ true
      → IsPlain s.principal.ref
      → IsPlain r
      → (is_engine_error (authorize is_authorized load_policies s.principal.ref a r s c) ≡ false)
        × (is_allowed (authorize is_authorized load_policies s.principal.ref a r s c)
            ≡ rule (member_of_slice s) c a e)
  authorize-rule a r e s c valid found applies plain_p plain_r =
      let seen = env_of-slice s valid c a r e found in
      let context = context_to_cedar c (some a) in
      let plain_a = action-IsPlain a in
      authorize_verdict is_authorized load_policies s.principal.ref a r s c
        (rule (member_of_slice s) c a e) true
        (cedar.allowed_law s.principal.ref (action_ref (action_value a)) r context load_policies
            (all_entities s) plain_p plain_a plain_r
          ∙ ap (λ env. allowed env load_policies) seen
          ∙ allowed-view_of (member_of_slice s) c a e applies)
        (cedar.errors_law s.principal.ref (action_ref (action_value a)) r context load_policies
            (all_entities s) plain_p plain_a plain_r
          ∙ ap (λ env. not (errored env load_policies)) seen
          ∙ ap not (errored-view_of (member_of_slice s) c a e applies))
