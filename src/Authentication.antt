-- ===== src/Authentication.antt =====
-- src/app/auth/base.py, `authenticate` of src/app/auth/jwt.py, and the chain that
-- src/app/api/deps.py builds of them. PyJWT's decoding is a parameter; no repository of profiles is
-- wired in, as in the source.
pub mod Bearer
pub mod Refetch
use Prim.Native.Char.{Char, code}
use Prim.Native.String
use stackai_authz_service.Prelude.{
  ℕ, String, Bool, true, false, ◌&&◌, ◌||◌, not, Option, none, some, List, [], ◌∷◌, eqb, strip,
  if◌then◌else◌, ◌==◌,
}
use stackai_authz_service.Errors.{Result, ok, err, authentication_failed}
use stackai_authz_service.Principal.{Principal, jwt, anonymous_principal}
use stackai_authz_service.ApiKeys.{Hasher, ApiKeyRow, authenticate_key}

-- What `_decode` does with a token: the claims `sub` and `email`, or the kind of the failure.
pub data Decoded : Type 0 where
  claims : (sub email : Option String) → Decoded
  expired_signature : Decoded
  py_jwt_error : Decoded

-- A list of letters, each in its two cases.
abbrev letters : List (ℕ × ℕ)
letters =
    (b'b', b'B')
    ∷ (b'e', b'E')
    ∷ (b'a', b'A')
    ∷ (b'r', b'R')
    ∷ (b'e', b'E')
    ∷ (b'r', b'R')
    ∷ (b' ', b' ')
    ∷ []

-- What follows letters that the text starts with, in whatever case.
unfoldable pub after_letters : List (ℕ × ℕ) → String → Option String
after_letters [] s = some s
after_letters ((low, high) ∷ ls) String.[] = none
after_letters ((low, high) ∷ ls) (String.◌∷◌ c s) =
    let rest = after_letters ls s in if eqb (code c) low || eqb (code c) high then rest else none

-- `raw.split(" ", 1)[1].strip()` of a header that starts with "bearer "; `none` of any other
unfoldable pub bearer_token : Option String → Option String
unfolding after_letters strip
bearer_token none = none
bearer_token (some raw) = elim (after_letters letters raw) [ none ↦ none | some t ↦ some (strip t) ]

abbrev jwt_principal : String → Option String → Principal
jwt_principal subject email = record {
  subject = subject;
  auth_method = jwt;
  email = email;
  api_key_scopes = [];
  api_key_org_id = none;
}

-- From the decoded token on.
unfoldable pub principal_of : Decoded → Result (Option Principal)
principal_of expired_signature = err (authentication_failed "Bearer" "token expired")
principal_of py_jwt_error = err (authentication_failed "Bearer" "invalid token")
principal_of (claims none email) = err (authentication_failed "Bearer" "token carries no subject")
principal_of (claims (some subject) email) =
    if subject == ""
    then err (authentication_failed "Bearer" "token carries no subject")
    else ok (some (jwt_principal subject email))

-- `AuthenticatorChain.authenticate`, on the answers of the authenticators
unfoldable pub authenticate_chain : List (Result (Option Principal)) → Result Principal
authenticate_chain [] = ok anonymous_principal
authenticate_chain (err e ∷ answers) = err e
authenticate_chain (ok none ∷ answers) = authenticate_chain answers
authenticate_chain (ok (some p) ∷ answers) = ok p

abbrev or_header : Option String → Option String → Option String
or_header none other = other
or_header (some s) other = if s == "" then other else some s

module _ (decode : String → Decoded) (hasher : Hasher) where
  -- `JWTAuthenticator.authenticate`
  unfoldable pub authenticate_jwt : Option String → Result (Option Principal)
  unfolding bearer_token principal_of
  authenticate_jwt header = elim (bearer_token header) [
    | none ↦ ok none
    | some token ↦ principal_of (decode token)
  ]

  -- `get_authenticator` and `get_principal`, of the request's headers
  unfoldable pub get_principal : List ApiKeyRow → ℕ → (String → Option String) → Result Principal
  unfolding authenticate_jwt authenticate_key authenticate_chain
  get_principal rows now headers = authenticate_chain (
      authenticate_jwt (or_header (headers "authorization") (headers "Authorization"))
      ∷ ok
          (authenticate_key hasher rows now (or_header (headers "x-api-key") (headers "X-API-Key")))
      ∷ ok (some anonymous_principal)
      ∷ [])
