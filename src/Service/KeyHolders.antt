-- ===== src/Service/KeyHolders.antt =====
-- The requests of callers with API keys.
use stackai_authz_service.Prelude.{
  ℕ, String, ◌≡◌, refl, ◌∙◌, ap, subst, Bool, false, Option, none, some, if◌then◌else◌, arith,
  Bool-cases, inl, inr,
}
use stackai_authz_service.Action.{Action, mem_action}
use stackai_authz_service.Entities.{EntityRef, Resource, EntitySlice, find_resource}
use stackai_authz_service.Engine.{AuthzContext}
use stackai_authz_service.Cedar.{Cedar, IsCedar, IsPlain}
use stackai_authz_service.Policies.{load_policies}
use stackai_authz_service.Rules.{rule}
use stackai_authz_service.Rules.Keys.{AreSeeded, key_actions, rule-key}
use stackai_authz_service.Rules.Slices.{member_of_slice}
use stackai_authz_service.Principal.{
  Principal, api_key, principal_ref, is_anonymous_method, method_value,
}
use stackai_authz_service.Errors.{fresh_state}
use stackai_authz_service.ApiKeys.{Hasher}
use stackai_authz_service.Deps.{build_context}
use stackai_authz_service.Deps.Outcomes.{seeing}
use stackai_authz_service.Deps.Requires.{guard_status}
use stackai_authz_service.Store.{Store}
use stackai_authz_service.Service
use stackai_authz_service.Service.{Request, perform, serve}
use stackai_authz_service.Service.Known.{AreKnown}
use stackai_authz_service.Service.Guarded.{target, needs, AnswersBy, verdict, serve-AnswersBy}

-- No action that a request needs is one that keys are for.
needs-key_actions : (q : Request) → mem_action (needs q) key_actions ≡ false
unfolding needs mem_action
needs-key_actions (Service.add_org_member org_id user_id role) = refl
needs-key_actions _ = refl

rule-needs :
    (member : EntityRef → Bool) (c : AuthzContext) (q : Request) (e : Resource)
    → c.auth_method ≡ "api_key"
    → AreSeeded c.api_key_scopes
    → rule member c (needs q) e ≡ false
rule-needs member c q e key seeded = elim (Bool-cases (rule member c (needs q) e)) [
  | inr refused ↦ refused
  | inl granted ↦
      (let listed = (rule-key member c (needs q) e key seeded granted).1 in
        let unlisted = needs-key_actions q in absurd (ground arith))
]

guard_status-refused :
    (s : EntitySlice) (c : AuthzContext) (a : Action) (found : Option Resource)
    → ((e : Resource) → rule (member_of_slice s) c a e ≡ false)
    → (n : ℕ) × (guard_status s c a found ≡ some n)
guard_status-refused s c a none h = (404, refl)
guard_status-refused s c a (some e) h =
    elim (Bool-cases (rule (member_of_slice s) c (seeing e) e)) [
      | inl seen ↦ (403, rw (seen, h e) refl)
      | inr hidden ↦ (404, rw hidden refl)
    ]

module _ (is_authorized : Cedar) (cedar : IsCedar is_authorized) (hasher : Hasher)
    (is_uuid : String → Bool) (p : Principal) (cid : String) (q : Request) (s : Store) where
  -- No request of a caller with an API key of seeded scopes changes the database, whoever owns the
  -- key. The roles of the tables are made of the code's capabilities, the references are plain, and
  -- `cedar` is the documented behaviour of the library.
  pub serve-api_key :
      AreKnown s
      → p.auth_method ≡ api_key
      → AreSeeded p.api_key_scopes
      → IsPlain (principal_ref p)
      → IsPlain (target q)
      → (serve is_authorized load_policies hasher is_uuid p cid q s).1 ≡ s
  unfolding build_context method_value
  serve-api_key known method seeded plain_p plain_r =
      let (slice, memo, fetched, answers) =
        serve-AnswersBy is_authorized cedar hasher is_uuid p cid q s known plain_p plain_r in
      let c = build_context fresh_state p in
      let (n, refused) =
        guard_status-refused slice c (needs q) (find_resource (target q) slice.resources)
          (λ e. rule-needs (member_of_slice slice) c q e (ap method_value method) seeded) in
      let judged : verdict is_authorized cedar hasher is_uuid p cid q s slice ≡ some n =
        ap
          (λ (b : Bool).
            if b
            then some 401
            else guard_status slice c (needs q) (find_resource (target q) slice.resources))
          (ap is_anonymous_method method)
        ∙ refused in
      (subst
        (λ v.
          AnswersBy v (serve is_authorized load_policies hasher is_uuid p cid q s)
            (perform hasher p.subject q s) s)
        judged answers).1
