-- ===== src/WorkflowToken.antt =====
-- src/app/auth/workflow_token.py: the short-lived token of one workflow. PyJWT is a parameter.
use stackai_authz_service.Prelude.{
  ℕ, ◌+◌, String, ◌≡◌, Bool, false, ◌&&◌, Option, none, some, leb, ltb, arith, ◌==◌, if◌then◌else◌,
}

pub record Claims : Type 0 where
  pub sub : String
  pub aud : String
  pub iat : ℕ
  pub exp : ℕ

-- The texts of tokens are a type of their own; `jwt.encode` with a secret, and `jwt.decode` with a
-- secret and an audience at a time; `none` is a `PyJWTError`. A token that the secret signed decodes
-- exactly if it names the audience, was not issued later than the time of decoding, and has not
-- expired.
pub record Jwt (Token : Type 0) : Type 0 where
  pub encode : Claims → String → Token
  pub decode : Token → String → String → ℕ → Option Claims
  pub decode_encode :
      (c : Claims) (secret audience : String) (now : ℕ)
      → decode (encode c secret) secret audience now
        ≡ (if c.aud == audience && leb c.iat now && ltb now c.exp then some c else none)

module _ {Token : Type 0} (jwt : Jwt Token) where
  -- `issue_workflow_token` at the time `now`
  unfoldable pub issue_workflow_token : String → String → ℕ → ℕ → Token
  issue_workflow_token workflow_id secret ttl now =
      jwt.encode (record { sub = workflow_id; aud = "workflow-access"; iat = now; exp = now + ttl })
        secret

  abbrev pub subject_is : Option Claims → String → Bool
  subject_is none workflow_id = false
  subject_is (some c) workflow_id = c.sub == workflow_id

  -- `verify_workflow_token` at the time `now`
  unfoldable pub verify_workflow_token : Token → String → String → ℕ → Bool
  verify_workflow_token token workflow_id secret now =
      subject_is (jwt.decode token secret "workflow-access" now) workflow_id

  -- An issued token verifies for its own workflow alone, from the time it was issued until its time to
  -- live is over.
  pub verify-issue :
      (issued_for asked_for secret : String) (ttl now later : ℕ)
      → verify_workflow_token
          (issue_workflow_token issued_for secret ttl now)
          asked_for
          secret
          later
        ≡ (issued_for == asked_for && leb now later && ltb later (now + ttl))
  unfolding issue_workflow_token verify_workflow_token
  verify-issue issued_for asked_for secret ttl now later = ground (
    arith,
    jwt.decode_encode
        (record { sub = issued_for; aud = "workflow-access"; iat = now; exp = now + ttl }) secret
        "workflow-access" later,
  )
