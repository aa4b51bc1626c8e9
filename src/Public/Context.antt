-- ===== src/Public/Context.antt =====
-- The context of a run of a published workflow, in terms of the claims of the token.
use stackai_authz_service.Prelude.{ℕ, String, ◌≡◌, refl, ap, Bool, false, Option, none, some, ◌==◌}
use stackai_authz_service.Engine.{AuthzContext}
use stackai_authz_service.Principal.{Principal, method_value}
use stackai_authz_service.Errors.{RequestState}
use stackai_authz_service.Deps.{build_context, or_false}
use stackai_authz_service.WorkflowToken.{Claims, Jwt, subject_is, verify_workflow_token}
use stackai_authz_service.Public.{Settings, note_token}

-- What the token of the header holds at a time, if there is one: the claims of a workflow's token
-- that the secret signed, or no claims.
abbrev pub opened :
    {Token : Type 0} → Jwt Token → String → ℕ → Option Token → Option (Option Claims)
opened jwt secret time none = none
opened jwt secret time (some token) = some (jwt.decode token secret "workflow-access" time)

-- Whether the password counts as verified: by claims about the workflow, never by a token without
-- claims, and without a token as before.
abbrev pub proven : Option (Option Claims) → String → Option Bool → Bool
proven none workflow_id none = false
proven none workflow_id (some before) = before
proven (some none) workflow_id before = false
proven (some (some c)) workflow_id before = c.sub == workflow_id

-- The context of a run.
abbrev pub run_context :
    {Token : Type 0}
    → Jwt Token
    → Settings
    → String
    → Option Token
    → ℕ
    → RequestState
    → Principal
    → AuthzContext
run_context jwt settings workflow_id token time st p = record {
  auth_method = method_value p.auth_method;
  password_verified =
      proven (opened jwt settings.token_secret time token) workflow_id st.password_verified;
  api_key_scopes = p.api_key_scopes;
  api_key_org_id = p.api_key_org_id;
}

proven-before :
    (before : Option Bool) (workflow_id : String) → or_false before ≡ proven none workflow_id before
proven-before none workflow_id = refl
proven-before (some b) workflow_id = refl

proven-claims :
    {Token : Type 0} (jwt : Jwt Token) (claims : Option Claims) (workflow_id : String)
    (before : Option Bool)
    → subject_is jwt claims workflow_id ≡ proven (some claims) workflow_id before
proven-claims jwt none workflow_id before = refl
proven-claims jwt (some c) workflow_id before = refl

pub build_context-noted :
    {Token : Type 0} (jwt : Jwt Token) (settings : Settings) (workflow_id : String)
    (token : Option Token) (time : ℕ) (st : RequestState) (p : Principal)
    → build_context (note_token jwt settings workflow_id token time st) p
      ≡ run_context jwt settings workflow_id token time st p
unfolding build_context verify_workflow_token
build_context-noted jwt settings workflow_id none time st p =
    ap
      (λ (verified : Bool). record {
        auth_method = method_value p.auth_method;
        password_verified = verified;
        api_key_scopes = p.api_key_scopes;
        api_key_org_id = p.api_key_org_id;
      })
      (proven-before st.password_verified workflow_id)
build_context-noted jwt settings workflow_id (some token) time st p =
    ap
      (λ (verified : Bool). record {
        auth_method = method_value p.auth_method;
        password_verified = verified;
        api_key_scopes = p.api_key_scopes;
        api_key_org_id = p.api_key_org_id;
      })
      (proven-claims jwt (jwt.decode token settings.token_secret "workflow-access" time) workflow_id
        st.password_verified)
