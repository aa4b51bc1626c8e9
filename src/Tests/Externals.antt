-- ===== src/Tests/Externals.antt =====
-- The theorems about external callers, keys, pauses and pages, on the data of the tests.
use stackai_authz_service.Authentication.Refetch.{
  Token, fetches, own_fetches, last_refetch, refetch_interval, fetches-interval,
}
use stackai_authz_service.Prelude.{
  ◌*◌, ◌+◌, ◌≤◌, String, Bool, true, false, ◌≡◌, refl, Option, none, some, List, [], ◌∷◌, ◌&&◌,
  lacks, leb, ltb, if◌then◌else◌, ◌==◌, arith, ap, eq_iff,
}
use stackai_authz_service.Entities.{EntitySlice, find_resource, resource_ref}
use stackai_authz_service.Cedar.{IsPlain}
use stackai_authz_service.Cedar.Reader.{reference_cedar, reference_cedar-IsCedar}
use stackai_authz_service.Policies.{load_policies}
use stackai_authz_service.Rules.{rule}
use stackai_authz_service.Provider.{
  slice_for, build_slice, build_workflow_entity, Database, Memo, CapabilitySlice,
}
use stackai_authz_service.Principal.{anonymous_principal, method_value}
use stackai_authz_service.Errors.{Result, ok, err, crash, fresh_state, error_status, rate_limited}
use stackai_authz_service.Deps.{build_context}
use stackai_authz_service.RateLimiter.{
  RateLimiter, new_limiter, check, record_failure, record_success,
}
use stackai_authz_service.RateLimiter.Keys.{Key, key_eq, get}
use stackai_authz_service.RateLimiter.Backoff.{
  fail, fail_all, check-record_failure, check-record_success, check-fail_all,
  check-fail_all_overflow,
}
use stackai_authz_service.WorkflowToken.{Jwt, Claims, issue_workflow_token}
use stackai_authz_service.Public.{Settings, exchange_password_for_token, execute_exported_workflow}
use stackai_authz_service.Public.Exchange.{
  accepted, hash_is_empty, exchange-checked, exchange-exchange,
}
use stackai_authz_service.Public.Unlocked.{execution-exchange}
use stackai_authz_service.Public.Execution.{execution-status, execution-issue}
use stackai_authz_service.ApiKeys.{
  Hasher, ApiKeyRow, by_prefix, authenticate_key, revoke_api_key, full_key,
}
use stackai_authz_service.ApiKeys.Lifecycle.{authenticate-revoke}
use stackai_authz_service.Authentication.{
  Decoded, claims, py_jwt_error, get_principal, bearer_token,
}
use stackai_authz_service.Authentication.Bearer.{get_principal-bearer}
use stackai_authz_service.Tests.{export_row, workflow_row, database, resource, target}

abbrev key : Key
key = record { workflow_id = "w1"; client = "10.0.0.1" }

check-fail_all_example : check 2500 (fail_all (2000 ∷ 1000 ∷ []) new_limiter key) key ≡ some 1500
unfolding get
check-fail_all_example = check-fail_all 2000 2500 (1000 ∷ []) new_limiter key refl (omega arith)

check-record_failure_example : (check 1500 (fail 1000 new_limiter key) key) ≡ some 500
unfolding get key_eq
check-record_failure_example = (check-record_failure 1000 1500 new_limiter key key (omega arith)).1

check-record_success_example :
    check 1500 (record_success (fail 1000 new_limiter key) key) key ≡ none
unfolding key_eq
check-record_success_example = (check-record_success 1500 (fail 1000 new_limiter key) key key).0

-- A client with 1024 failures, the last of which keeps it waiting until the time 61000.
abbrev overflown : RateLimiter
overflown = record new_limiter { attempts = (key, 1024) ∷ []; blocked_until = (key, 61000) ∷ [] }

check-fail_all_overflow_example :
    ((record_failure 69500 (fail_all (69000 ∷ 68000 ∷ []) overflown key) key).0 ≡ err crash)
    × (check 70000 (fail_all (69000 ∷ 68000 ∷ []) overflown key) key ≡ none)
unfolding get key_eq check
check-fail_all_overflow_example =
    check-fail_all_overflow 69500 70000 (69000 ∷ 68000 ∷ []) overflown key (omega arith)

-- A token that shows its claims and its secret.
abbrev pub open_jwt : Jwt (Claims × String)
open_jwt = record {
  encode = λ c secret. (c, secret);
  decode = λ token secret audience now.
      if token.1 == secret
        && (token.0.aud == audience && leb token.0.iat now && ltb now token.0.exp)
      then some token.0
      else none;
  decode_encode = λ c secret audience now. ground (arith, eq_iff secret secret);
}

abbrev pub settings : Settings
settings = record { trusted_proxies = "10.0.0.1"; token_secret = "secret"; token_ttl_seconds = 300 }

anonymous-IsPlain : IsPlain (record { kind = "User"; id = "anonymous" })
unfolding lacks
anonymous-IsPlain = (refl, refl, refl)

target-IsPlain : IsPlain target
unfolding lacks
target-IsPlain = (refl, refl, refl)

-- What the provider returns for the anonymous principal.
abbrev anonymous_caps : CapabilitySlice
anonymous_caps = record { team_caps = []; org_caps = [] }

abbrev nobody : Database
nobody = record database { is_uuid = λ s. false }

abbrev anonymous_slice : EntitySlice
unfolding build_slice
anonymous_slice =
    build_slice (record { kind = "User"; id = "anonymous" }) anonymous_caps (resource ∷ [])

abbrev anonymous_memo : Memo
anonymous_memo = ("anonymous", anonymous_caps) ∷ []

fetched :
    slice_for nobody [] (record { kind = "User"; id = "anonymous" }) (target ∷ [])
    ≡ some (anonymous_slice, anonymous_memo)
unfolding slice_for build_slice build_workflow_entity resource
fetched = refl

execution-status_example :
    error_status
      (execute_exported_workflow open_jwt reference_cedar load_policies nobody settings "w1" none
        anonymous_principal 1000 fresh_state).0
    ≡ some 403
unfolding rule build_slice build_workflow_entity build_context resource find_resource resource_ref
execution-status_example =
    execution-status reference_cedar reference_cedar-IsCedar open_jwt nobody settings "w1" none
      anonymous_principal 1000 fresh_state anonymous_slice anonymous_memo fetched anonymous-IsPlain
      target-IsPlain

execution-issue_example :
    error_status
      (execute_exported_workflow open_jwt reference_cedar load_policies nobody settings "w1"
        (some (issue_workflow_token open_jwt "w1" "secret" 300 1000))
        anonymous_principal
        1200
        fresh_state).0
    ≡ none
unfolding build_slice build_workflow_entity resource find_resource resource_ref method_value
execution-issue_example =
    execution-issue reference_cedar reference_cedar-IsCedar open_jwt nobody settings "w1" "w1"
      anonymous_principal 1000 1200 fresh_state anonymous_slice anonymous_memo
      (build_workflow_entity workflow_row (some export_row)) fetched refl refl refl refl refl
      anonymous-IsPlain target-IsPlain

-- Passwords are their own hashes.
abbrev pub plain_verify : String → String → Option Bool
plain_verify hashed password = if hashed == password then some true else none

exchange-checked_example :
    (exchange_password_for_token open_jwt plain_verify "dummy"
      (λ w. some "hash" ∷ [])
      settings
      "w1"
      "hash"
      (some "10.0.0.9")
      none
      1000
      1000
      new_limiter).0
    ≡ ok (issue_workflow_token open_jwt "w1" "secret" 300 1000)
unfolding accepted get check hash_is_empty
exchange-checked_example =
    ap (λ (x : Result (Claims × String) × RateLimiter). x.0)
      (exchange-checked open_jwt plain_verify "dummy" (λ w. some "hash" ∷ []) settings "w1"
        (some "10.0.0.9") none "hash" 1000 1000 new_limiter refl refl (omega arith))

execution-exchange_example :
    (token : Claims × String) × ((exchange_password_for_token open_jwt plain_verify "dummy"
        (λ w. some "hash" ∷ [])
        settings
        "w1"
        "hash"
        (some "10.0.0.9")
        none
        1000
        1000
        new_limiter).0
      ≡ ok token)
    × (error_status
          (execute_exported_workflow open_jwt reference_cedar load_policies nobody settings "w1"
            (some token)
            anonymous_principal
            1200
            fresh_state).0
        ≡ none)
unfolding accepted get check hash_is_empty build_slice build_workflow_entity resource find_resource
    resource_ref method_value
execution-exchange_example =
    execution-exchange reference_cedar reference_cedar-IsCedar open_jwt plain_verify "dummy"
      (λ w. some "hash" ∷ []) nobody settings "w1" (some "10.0.0.9") none "hash" 1000 1000
      new_limiter anonymous_principal 1200 fresh_state anonymous_slice anonymous_memo
      (build_workflow_entity workflow_row (some export_row)) refl refl (omega arith) refl fetched
      refl refl refl refl refl anonymous-IsPlain target-IsPlain

exchange-exchange_example :
    (let after =
        (exchange_password_for_token open_jwt plain_verify "dummy"
          (λ w. some "hash" ∷ [])
          settings
          "w1"
          "guess"
          (some "10.0.0.9")
          none
          1000
          1000
          new_limiter).1 in
      exchange_password_for_token open_jwt plain_verify "dummy"
        (λ w. some "hash" ∷ [])
        settings
        "w1"
        "hash"
        (some "10.0.0.9")
        none
        1500
        1500
        after
      ≡ (err (rate_limited 500), after))
unfolding accepted get check hash_is_empty
exchange-exchange_example =
    exchange-exchange open_jwt plain_verify "dummy" (λ w. some "hash" ∷ []) settings "w1"
      (some "10.0.0.9") none "guess" "hash" 1000 1000 1500 1500 new_limiter refl refl (omega arith)
      refl (omega arith)

abbrev pub hasher : Hasher
hasher = record {
  hash = λ salt secret. secret;
  verify = plain_verify;
  verify_hash = λ salt secret tried. refl;
}

abbrev pub stored_key : ApiKeyRow
stored_key = record {
  id = "k1";
  user_id = "ann";
  org_id = "o1";
  name = "ci";
  prefix = "ab12";
  key_hash = "s3cret";
  expires_at = none;
  revoked_at = none;
  scopes = "workflow:run" ∷ [];
}

authenticate-revoke_example :
    authenticate_key hasher
      (revoke_api_key "o1" "k1" 4000 (stored_key ∷ [])).1
      5000
      (some (full_key "ab12" "s3cret"))
    ≡ none
unfolding lacks by_prefix
authenticate-revoke_example =
    authenticate-revoke hasher "o1" "k1" 4000 5000 "ab12" "s3cret" (stored_key ∷ []) stored_key refl
      refl

abbrev decode : String → Decoded
decode token = if token == "good" then claims (some "ann") none else py_jwt_error

abbrev headers : String → Option String
headers name = if name == "authorization" then some "Bearer bad" else none

get_principal-bearer_example :
    error_status (get_principal decode hasher (stored_key ∷ []) 5000 headers) ≡ some 401
unfolding bearer_token
get_principal-bearer_example =
    get_principal-bearer decode hasher (stored_key ∷ []) 5000 headers "bad" refl

-- One key id three times within two minutes, and another in between; the library does not find the
-- first token's key in its cache.
abbrev tokens : List Token
tokens = (60000, "k1", 1) ∷ (90000, "k1", 0) ∷ (100000, "k2", 1) ∷ (130000, "k1", 0) ∷ []

fetches-interval_example :
    fetches "k1" tokens [] * refetch_interval + last_refetch "k1" [] ≤ 150000 + 1 * refetch_interval
unfolding own_fetches last_refetch
fetches-interval_example =
    fetches-interval "k1" 150000 tokens []
      (omega arith, (omega arith, (omega arith, (omega arith, tt)))) (omega arith)
