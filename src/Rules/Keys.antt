-- ===== src/Rules/Keys.antt =====
-- What the access rules leave to API keys and to callers without any capability.
use stackai_authz_service.Prelude.{
  String, ◌≡◌, refl, Bool, true, false, ◌⊎◌, inl, inr, Option, none, some, List, [], ◌∷◌, arith,
  mem_text, All, ◌==◌, eq_iff, Bool-cases, sym, ◌∙◌,
}
use stackai_authz_service.Action.{Action, mem_action}
use stackai_authz_service.Entities.{EntityRef, ref_eq, Resource, EntitySlice, find_resource}
use stackai_authz_service.Schema.{applies_to}
use stackai_authz_service.Decision.{is_allowed}
use stackai_authz_service.Cedar.{Cedar, IsCedar, IsPlain}
use stackai_authz_service.Policies.{load_policies}
use stackai_authz_service.Engine.{AuthzContext, authorize}
use stackai_authz_service.Rules.{org_of, rule, same_org}
use stackai_authz_service.Rules.Refinement.{kind_of}
use stackai_authz_service.Rules.Slices.{IsSlice, member_of_slice}
use stackai_authz_service.Rules.Decisions.{authorize-rule}

-- The scopes that the seed creates, and so the only ones that a key can hold.
abbrev pub seeded_scopes : List String
seeded_scopes = "workflow:read" ∷ "workflow:run" ∷ []

abbrev pub key_actions : List Action
key_actions =
    Action.org_view ∷ Action.team_view ∷ Action.workflow_list ∷ Action.workflow_view
    ∷ Action.workflow_run ∷ Action.workflow_run_exported ∷ []

-- The key's scopes are seeded ones.
abbrev pub AreSeeded : List String → Type 0
AreSeeded scopes = All (λ s. mem_text s seeded_scopes ≡ true) scopes

seeded-mem :
    (s : String) (scopes : List String)
    → AreSeeded scopes
    → mem_text s scopes ≡ true
    → (s ≡ "workflow:read") ⊎ (s ≡ "workflow:run")
seeded-mem s [] h m = absurd (cc)
seeded-mem s (x ∷ xs) (h, hs) m = elim (Bool-cases (x == s)) [
  | inl here ↦ ground (arith, eq_iff x s, eq_iff "workflow:read" x, eq_iff "workflow:run" x)
  | inr there ↦ seeded-mem s xs hs (ground arith)
]

same_org_id : (o : Option String) (r : EntityRef) → same_org o r ≡ true → o ≡ some r.id
unfolding ref_eq
same_org_id none r h = cc
same_org_id (some k) r h = ground (arith, eq_iff r.id k)

-- No seeded scope is a sentinel.
not_seeded :
    (s : String) (scopes : List String)
    → AreSeeded scopes
    → (s == "workflow:read") ≡ false
    → (s == "workflow:run") ≡ false
    → mem_text s scopes ≡ false
not_seeded s scopes seeded d d' = elim (Bool-cases (mem_text s scopes)) [
  | inl held ↦
      ground
        (arith, seeded-mem s scopes seeded held, eq_iff s "workflow:read", eq_iff s "workflow:run")
  | inr free ↦ free
]

pub rule-key :
    (member : EntityRef → Bool) (c : AuthzContext) (a : Action) (e : Resource)
    → c.auth_method ≡ "api_key"
    → AreSeeded c.api_key_scopes
    → rule member c a e ≡ true
    → (c.api_key_org_id ≡ some (org_of e).id) × (mem_action a key_actions ≡ true)
unfolding rule
rule-key member c Action.org_add_user e key seeded h =
    ground (arith, eq_iff c.auth_method "api_key")
rule-key member c _ e key seeded h = ground (
  arith,
  eq_iff c.auth_method "api_key",
  same_org_id c.api_key_org_id (org_of e),
  not_seeded "workflow:write" c.api_key_scopes seeded refl refl,
)

module _ (is_authorized : Cedar) (cedar : IsCedar is_authorized) where
  -- What an API key with seeded scopes is allowed on a resource of its slice, whoever owns it, is one
  -- of six actions that view or run, and the resource is in the key's own organization. The slice is
  -- well formed, the action fits the type of the resource, and the references are plain.
  pub authorize-key :
      (a : Action) (r : EntityRef) (e : Resource) (s : EntitySlice) (c : AuthzContext)
      → IsSlice s
      → find_resource r s.resources ≡ some e
      → applies_to a (kind_of e) ≡ true
      → IsPlain s.principal.ref
      → IsPlain r
      → c.auth_method ≡ "api_key"
      → AreSeeded c.api_key_scopes
      → is_allowed (authorize is_authorized load_policies s.principal.ref a r s c) ≡ true
      → (c.api_key_org_id ≡ some (org_of e).id) × (mem_action a key_actions ≡ true)
  authorize-key a r e s c valid found applies plain_p plain_r key seeded allowed =
      rule-key (member_of_slice s) c a e key seeded (
        sym (authorize-rule is_authorized cedar a r e s c valid found applies plain_p plain_r).1
        ∙ allowed)
