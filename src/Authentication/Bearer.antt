-- ===== src/Authentication/Bearer.antt =====
-- Which credentials decide who is asking.
use stackai_authz_service.Prelude.{
  ℕ, String, ◌≡◌, refl, Bool-cases, Option, none, some, List, ◌∷◌, inl, inr, if◌then◌else◌, ◌==◌,
}
use stackai_authz_service.Errors.{Result, ok, error_status}
use stackai_authz_service.Principal.{Principal, jwt}
use stackai_authz_service.ApiKeys.{Hasher, ApiKeyRow}
use stackai_authz_service.Authentication.{
  Decoded, claims, expired_signature, py_jwt_error, bearer_token, principal_of, authenticate_chain,
  or_header, authenticate_jwt, get_principal,
}

-- The non-empty subject of a decoded token.
abbrev pub subject_of : Decoded → Option String
subject_of (claims (some subject) email) = if subject == "" then none else some subject
subject_of _ = none

abbrev pub AnswersFor : Option String → Result Principal → Type 0
AnswersFor none r = error_status r ≡ some 401
AnswersFor (some subject) r =
    (p : Principal) × (r ≡ ok p) × (p.subject ≡ subject) × (p.auth_method ≡ jwt)

abbrev pub authorization_header : (String → Option String) → Option String
authorization_header headers = or_header (headers "authorization") (headers "Authorization")

module _ (decode : String → Decoded) (hasher : Hasher) where
  principal_of-answers :
      (d : Decoded) (answers : List (Result (Option Principal)))
      → AnswersFor (subject_of d) (authenticate_chain (principal_of d ∷ answers))
  unfolding principal_of authenticate_chain error_status
  principal_of-answers expired_signature answers = refl
  principal_of-answers py_jwt_error answers = refl
  principal_of-answers (claims none email) answers = refl
  principal_of-answers (claims (some subject) email) answers = elim (Bool-cases (subject == "")) [
    | inl unnamed ↦ rw unnamed refl
    | inr named ↦ rw named (_, refl, refl, refl)
  ]

  -- A request whose authorization header presents a bearer token is decided by that token alone: one
  -- that decodes to a subject makes the caller that subject by JWT, any other is answered 401, and
  -- neither an API key nor the anonymous principal stands in for it.
  pub get_principal-bearer :
      (rows : List ApiKeyRow) (now : ℕ) (headers : String → Option String) (token : String)
      → bearer_token (authorization_header headers) ≡ some token
      → AnswersFor (subject_of (decode token)) (get_principal decode hasher rows now headers)
  unfolding get_principal authenticate_jwt
  get_principal-bearer rows now headers token h =
      rw (h, authenticate_jwt) (principal_of-answers (decode token) _)
