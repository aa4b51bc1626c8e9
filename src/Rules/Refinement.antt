-- ===== src/Rules/Refinement.antt =====
-- The policy files decide by the access rules, without an evaluation error.
use stackai_authz_service.Prelude.{
  String, ◌≡◌, Bool, true, false, some, ◌∷◌, arith, ◌==◌, any-sorted,
}
use stackai_authz_service.Action.{Action, action_value}
use stackai_authz_service.Entities.{
  EntityRef, mem_ref, Resource, workflow, team, org, resource_to_cedar,
}
use stackai_authz_service.Schema.{applies_to}
use stackai_authz_service.Cedar.{Env, action_ref, errored, allowed}
use stackai_authz_service.Policies.{load_policies}
use stackai_authz_service.Engine.{AuthzContext, action_parents, context_to_cedar}
use stackai_authz_service.Rules.{rule}

-- What the policies read of a request, where `member` tells whether the principal is in an entity.
unfoldable pub view_of : (EntityRef → Bool) → AuthzContext → Action → Resource → Env
unfolding action_value action_parents context_to_cedar resource_to_cedar mem_ref
view_of member c a e = record {
  action = action_ref (action_value a);
  attrs = (resource_to_cedar e).attrs;
  context = context_to_cedar c (some a);
  principal_in = member;
  action_in = λ t. mem_ref t (action_ref (action_value a) ∷ action_parents a);
}

-- The resource has the type of its class.
abbrev pub kind_of : Resource → String
kind_of (workflow w) = "Workflow"
kind_of (team t) = "Team"
kind_of (org o) = "Organization"

module _ (member : EntityRef → Bool) (c : AuthzContext) where
  -- No policy errs on a resource of a type that the schema declares for the action.
  pub errored-view_of :
      (a : Action) (e : Resource)
      → applies_to a (kind_of e) ≡ true
      → errored (view_of member c a e) load_policies ≡ false
  unfolding view_of errored applies_to
  errored-view_of Action.org_add_user (workflow w) h = ground arith
  errored-view_of _ (workflow w) h = ground arith
  errored-view_of Action.workflow_run (team t) h = ground arith
  errored-view_of _ (team t) h = ground arith
  errored-view_of Action.workflow_run (org o) h = ground arith
  errored-view_of _ (org o) h = ground arith

  -- There the policy set and the access rules give the same answer.
  pub allowed-view_of :
      (a : Action) (e : Resource)
      → applies_to a (kind_of e) ≡ true
      → allowed (view_of member c a e) load_policies ≡ rule member c a e
  unfolding view_of allowed applies_to rule
  allowed-view_of Action.org_add_user (workflow w) h = ground arith
  allowed-view_of _ (workflow w) h = ground (
    arith,
    any-sorted (λ x. x == "workflow:read") c.api_key_scopes,
    any-sorted (λ x. x == "workflow:run") c.api_key_scopes,
    any-sorted (λ x. x == "workflow:write") c.api_key_scopes,
  )
  allowed-view_of Action.workflow_run (team t) h = ground arith
  allowed-view_of _ (team t) h = ground (
    arith,
    any-sorted (λ x. x == "workflow:read") c.api_key_scopes,
    any-sorted (λ x. x == "workflow:write") c.api_key_scopes,
  )
  allowed-view_of Action.workflow_run (org o) h = ground arith
  allowed-view_of _ (org o) h = ground (
    arith,
    any-sorted (λ x. x == "workflow:read") c.api_key_scopes,
    any-sorted (λ x. x == "governance:denied") c.api_key_scopes,
  )
