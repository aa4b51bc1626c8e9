-- ===== src/Engine.antt =====
-- packages/authz-core/src/authz_core/engine.py: the request context, the entities of the action
-- groups, and `PolicyEngine`, over the parameter `is_authorized` of cedarpy.
use stackai_authz_service.Prelude.{
  String, Bool, Option, none, some, List, [], ◌∷◌, ◌++◌, map, is_empty, lookup, sorted,
  if◌then◌else◌, cat, not,
}
use stackai_authz_service.Action.{
  Action, action_value, mem_action, all_actions, governance_actions, org_administrable_actions,
  action_scope,
}
use stackai_authz_service.Entities.{
  EntityRef, literal, Value, entity, bool, text, texts, CedarEntity, bare, EntitySlice,
  slice_to_cedar,
}
use stackai_authz_service.Decision.{Decision, allow, deny, engine_error}
use stackai_authz_service.Cedar.{Policy, Cedar, action_ref}

pub record AuthzContext : Type 0 where
  pub auth_method : String
  pub password_verified : Bool
  pub api_key_scopes : List String
  pub api_key_org_id : Option String

-- `action is not None and action in ACTION_SCOPES`
required_scope : Option Action → List (String × Value)
unfolding action_scope
required_scope none = []
required_scope (some action) = elim (action_scope action) [
  | none ↦ []
  | some scope ↦ ("required_scope", text scope) ∷ []
]

api_key_org : Option String → List (String × Value)
api_key_org none = []
api_key_org (some org) = ("api_key_org", entity (record { kind = "Organization"; id = org })) ∷ []

-- `AuthzContext.to_cedar`
unfoldable pub context_to_cedar : AuthzContext → Option Action → List (String × Value)
unfolding required_scope api_key_org sorted
context_to_cedar c action =
    ("auth_method", text c.auth_method)
    ∷ ("password_verified", bool c.password_verified)
    ∷ ("api_key_scopes", texts (sorted c.api_key_scopes))
    ∷ (required_scope action ++ api_key_org c.api_key_org_id)

-- The parents of an action's entity: its groups.
unfoldable pub action_parents : Action → List EntityRef
unfolding mem_action
action_parents a =
    (if mem_action a governance_actions then action_ref "Governance" ∷ [] else [])
    ++ (if mem_action a org_administrable_actions then action_ref "OrgAdministrable" ∷ [] else [])

abbrev pub action_entity : Action → CedarEntity
action_entity a = record {
  uid = action_ref (action_value a);
  attrs = [];
  parents = action_parents a;
}

-- `_build_action_entities`
unfoldable pub action_entities : List CedarEntity
unfolding action_parents action_value
action_entities =
    bare (action_ref "Governance")
    ∷ bare (action_ref "OrgAdministrable")
    ∷ map (λ a. action_entity a) all_actions

-- `sep.join(parts)`
unfoldable pub join : String → List String → String
join sep [] = ""
join sep (s ∷ []) = s
join sep (s ∷ t ∷ rest) = cat s (cat sep (join sep (t ∷ rest)))

-- `annotations.get(reasons[0]) if reasons else None`
unfoldable pub first_annotation : List String → List (String × String) → Option String
first_annotation [] annotations = none
first_annotation (r ∷ rest) annotations = lookup r annotations

module _ (is_authorized : Cedar) (policies : List Policy) where
  -- `PolicyEngine.authorize_raw`
  unfoldable pub authorize_raw :
      (principal action resource : String)
      → List CedarEntity
      → AuthzContext
      → Option Action
      → Decision
  unfolding action_entities context_to_cedar join first_annotation sorted
  authorize_raw principal action resource entities context cedar_action =
      let result =
        is_authorized
          (record {
            principal = principal;
            action = action;
            resource = resource;
            context = context_to_cedar context cedar_action;
          })
          policies (action_entities ++ entities) in
      if not (is_empty result.errors)
      then engine_error (join "; " result.errors)
      else let found = first_annotation (sorted result.reasons) result.annotations in
        if result.allowed then allow found else deny found

  -- `PolicyEngine.authorize`; `Action::"..."` is the literal of the action's reference.
  unfoldable pub authorize : EntityRef → Action → EntityRef → EntitySlice → AuthzContext → Decision
  unfolding authorize_raw slice_to_cedar literal action_value
  authorize principal action resource slice context =
      authorize_raw (literal principal) (literal (action_ref (action_value action)))
        (literal resource) (slice_to_cedar slice) context (some action)

  -- `PolicyEngine.authorize_batch`: one list of entities for all resources.
  unfoldable pub authorize_batch :
      EntityRef → Action → List EntityRef → EntitySlice → AuthzContext → List Decision
  unfolding authorize_raw slice_to_cedar literal action_value
  authorize_batch principal action resources slice context =
      let entities = slice_to_cedar slice in
      map
        (λ r.
          authorize_raw (literal principal) (literal (action_ref (action_value action))) (literal r)
            entities context (some action))
        resources
