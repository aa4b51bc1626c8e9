-- ===== src/Principal.antt =====
-- src/app/auth/principal.py: who is asking.
use stackai_authz_service.Prelude.{String, Bool, true, false, Option, none, List, []}
use stackai_authz_service.Entities.{EntityRef}

pub data AuthMethod : Type 0 where
  jwt api_key anonymous : AuthMethod

-- `auth_method.value`
unfoldable pub method_value : AuthMethod → String
method_value jwt = "jwt"
method_value api_key = "api_key"
method_value anonymous = "anonymous"

pub record Principal : Type 0 where
  pub subject : String
  pub auth_method : AuthMethod
  pub email : Option String
  pub api_key_scopes : List String
  pub api_key_org_id : Option String

-- `Principal.ref`
abbrev pub principal_ref : Principal → EntityRef
principal_ref p = record { kind = "User"; id = p.subject }

abbrev pub is_anonymous_method : AuthMethod → Bool
is_anonymous_method anonymous = true
is_anonymous_method _ = false

-- `Principal.is_anonymous`
abbrev pub is_anonymous : Principal → Bool
is_anonymous p = is_anonymous_method p.auth_method

-- `ANONYMOUS_PRINCIPAL`
abbrev pub anonymous_principal : Principal
anonymous_principal = record {
  subject = "anonymous";
  auth_method = anonymous;
  email = none;
  api_key_scopes = [];
  api_key_org_id = none;
}
