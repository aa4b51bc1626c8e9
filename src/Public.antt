-- ===== src/Public.antt =====
-- src/app/api/routers/public.py: the two routes of external callers. argon2, PyJWT and the query of
-- the export row are parameters.
pub mod Exchange
pub mod Context
pub mod Execution
pub mod Unlocked
use Prim.Native.Char.{Char, code}
use Prim.Native.String
use stackai_authz_service.Prelude.{
  strip, ℕ, ◌+◌, String, Bool, true, false, ◌||◌, ◌&&◌, not, Option, none, some, List, [], ◌∷◌, map,
  keep, lookup, mem_text, eqb, leb, if◌then◌else◌, ◌==◌, cat,
}
use stackai_authz_service.Action
use stackai_authz_service.Action.{action_value}
use stackai_authz_service.Entities.{EntityRef, literal}
use stackai_authz_service.Decision.{Decision, allow, deny, engine_error}
use stackai_authz_service.Cedar.{Cedar, Policy}
use stackai_authz_service.Engine.{authorize}
use stackai_authz_service.Provider.{Database, slice_for}
use stackai_authz_service.Principal.{Principal, principal_ref}
use stackai_authz_service.Errors.{
  Result, ok, err, RequestState, authz_denied, resource_not_visible, authz_engine_error,
  rate_limited, crash,
}
use stackai_authz_service.Deps.{build_context, in_slice}
use stackai_authz_service.RateLimiter.{RateLimiter, check, record_failure, record_success}
use stackai_authz_service.RateLimiter.Keys.{Key}
use stackai_authz_service.WorkflowToken.{Jwt, issue_workflow_token, verify_workflow_token}

-- The fields of `Settings` that the routes read.
pub record Settings : Type 0 where
  pub trusted_proxies : String
  pub token_secret : String
  pub token_ttl_seconds : ℕ

abbrev prepend_first : Char → List String → List String
prepend_first c [] = String.◌∷◌ c "" ∷ []
prepend_first c (p ∷ ps) = String.◌∷◌ c p ∷ ps

-- `s.split(",")`
unfoldable pub split_commas : String → List String
split_commas String.[] = "" ∷ []
split_commas (String.◌∷◌ c s) =
    let rest = split_commas s in if eqb (code c) b',' then "" ∷ rest else prepend_first c rest

abbrev first_or_empty : List String → String
first_or_empty [] = ""
first_or_empty (s ∷ rest) = s

abbrev or_unknown : Option String → String
or_unknown none = "unknown"
or_unknown (some host) = host

-- The set of trusted peers.
unfoldable pub trusted_peers : Settings → List String
unfolding split_commas strip
trusted_peers settings =
    keep (λ p. not (p == "")) (map strip (split_commas settings.trusted_proxies))

abbrev forwarded_or : String → Option String → String
forwarded_or peer none = peer
forwarded_or peer (some forwarded) =
    if forwarded == "" then peer else strip (first_or_empty (split_commas forwarded))

-- `_client_ip`: of the socket's peer and the header X-Forwarded-For
unfoldable pub client_ip : Option String → Option String → Settings → String
unfolding trusted_peers split_commas strip
client_ip host forwarded settings =
    let peer = or_unknown host in
    if mem_text peer (trusted_peers settings) then forwarded_or peer forwarded else peer

abbrev or_failed : Option Bool → Bool
or_failed none = false
or_failed (some b) = b

-- `_verify_password`: `verify hash password` is `_hasher.verify`, with `none` for an exception.
unfoldable pub verify_password : (String → String → Option Bool) → String → String → Bool
verify_password verify password hashed = or_failed (verify hashed password)

-- `password_hash or _DUMMY_HASH`
unfoldable pub hash_or_dummy : String → Option String → String
hash_or_dummy dummy none = dummy
hash_or_dummy dummy (some h) = if h == "" then dummy else h

abbrev pub is_missing : Option String → Bool
is_missing none = true
is_missing (some h) = false

-- `rows[0].get("password_hash") if rows else None`
unfoldable pub stored_hash : List (Option String) → Option String
stored_hash [] = none
stored_hash (h ∷ rows) = h

module _ {Token : Type 0} (jwt : Jwt Token) (verify : String → String → Option Bool)
    (dummy_hash : String) (exported_hashes : String → List (Option String)) where
  -- `exchange_password_for_token`. `exported_hashes` is the query of `workflow_exports` for the
  -- workflow with `is_exported` set; `now` is the monotonic clock and `time` the wall clock. A
  -- `record_failure` that raises replaces the denial.
  unfoldable pub exchange_password_for_token :
      Settings
      → String
      → String
      → Option String
      → Option String
      → (now time : ℕ) → RateLimiter
      → Result Token × RateLimiter
  unfolding client_ip verify_password hash_or_dummy stored_hash issue_workflow_token
  exchange_password_for_token settings workflow_id password host forwarded now time limiter =
      let key : Key = record {
        workflow_id = workflow_id;
        client = client_ip host forwarded settings;
      } in
      elim (check now limiter key) [
        | some retry_after ↦ (err (rate_limited retry_after), limiter)
        | none ↦
            let found = stored_hash (exported_hashes workflow_id) in
            if not (verify_password verify password (hash_or_dummy dummy_hash found))
              || is_missing found
            then (let (outcome, after) = record_failure now limiter key in
                elim outcome [
                  | err e ↦ (err e, after)
                  | ok u ↦ (
                    err (authz_denied none "WorkflowAccess" (cat "Workflow::" workflow_id)),
                    after,
                  )
                ])
            else (
              ok (
                  issue_workflow_token jwt workflow_id settings.token_secret
                    settings.token_ttl_seconds time),
              record_success limiter key,
            )
      ]

abbrev pub execution_answer : String → Decision → Result (Unit {0})
execution_answer resource (engine_error message) = err (authz_engine_error message)
execution_answer resource (deny id) =
    err (authz_denied id (action_value Action.workflow_run_exported) resource)
execution_answer resource (allow id) = ok tt

module _ {Token : Type 0} (jwt : Jwt Token) where
  abbrev pub note_token : Settings → String → Option Token → ℕ → RequestState → RequestState
  note_token settings workflow_id none time s = s
  note_token settings workflow_id (some token) time s = record s {
    password_verified =
        some (verify_workflow_token jwt token workflow_id settings.token_secret time);
  }

module _ {Token : Type 0} (jwt : Jwt Token) (is_authorized : Cedar) (policies : List Policy) where
  -- `execute_exported_workflow`. `token` is the header X-Workflow-Token; the canned record of the
  -- execution is left out.
  unfoldable pub execute_exported_workflow :
      Database
      → Settings
      → String
      → Option Token
      → Principal
      → ℕ
      → RequestState
      → Result (Unit {0}) × RequestState
  unfolding in_slice build_context literal
  execute_exported_workflow db settings workflow_id token p time s =
      let noted = note_token jwt settings workflow_id token time s in
      let resource : EntityRef = record { kind = "Workflow"; id = workflow_id } in
      elim (slice_for db [] (principal_ref p) (resource ∷ [])) [
        | none ↦ (err crash, noted)
        | some (slice, memo) ↦
            if not (in_slice resource slice)
            then (err (resource_not_visible (literal resource)), noted)
            else (
              execution_answer (literal resource) (
                  authorize is_authorized policies (principal_ref p) Action.workflow_run_exported
                    resource slice (build_context noted p)),
              noted,
            )
      ]
