-- ===== src/Public/Unlocked.antt =====
-- The two routes of external callers together: the token that the exchange answers unlocks the run.
use stackai_authz_service.Prelude.{
  ℕ, ◌+◌, ◌<◌, String, Bool, true, false, ◌≡◌, refl, ◌∙◌, ap, ◌&&◌, Option, none, some, List, [],
  ◌∷◌, leb, ltb, if◌then◌else◌, ◌==◌, eq_iff,
}
use stackai_authz_service.Entities.{EntitySlice, WorkflowEntity, workflow, find_resource}
use stackai_authz_service.Cedar.{Cedar, IsCedar, IsPlain}
use stackai_authz_service.Policies.{load_policies}
use stackai_authz_service.Provider.{Database, Memo, slice_for}
use stackai_authz_service.Principal.{Principal, principal_ref, method_value}
use stackai_authz_service.Errors.{Result, ok, RequestState, error_status}
use stackai_authz_service.RateLimiter.{RateLimiter, check, tries}
use stackai_authz_service.WorkflowToken.{Jwt, issue_workflow_token}
use stackai_authz_service.Public.{Settings, exchange_password_for_token, execute_exported_workflow}
use stackai_authz_service.Public.Exchange.{exchange_key, accepted, hash_is_empty, exchange-checked}
use stackai_authz_service.Public.Execution.{workflow_of, execution-issue}

module _ {Token : Type 0} (is_authorized : Cedar) (cedar : IsCedar is_authorized) (jwt : Jwt Token)
    (verify : String → String → Option Bool) (dummy_hash : String)
    (exported_hashes : String → List (Option String)) (db : Database) (settings : Settings)
    (workflow_id : String) (host forwarded : Option String) (password : String) (now issued : ℕ)
    (l : RateLimiter) (p : Principal) (time : ℕ) (st : RequestState) (s : EntitySlice) (memo : Memo)
    (w : WorkflowEntity) where
  -- A client that shows an accepted password, and that the rate limit does not hold back, gets a token;
  -- with it, a caller without an API key is granted the run of the workflow, which is exported, open to
  -- all and protected by a password, from the time of the exchange until the token's time to live is
  -- over, and answered 403 at any other time. The stored hash is not the empty text, the provider
  -- returns a slice that holds the workflow, and the references are plain.
  pub execution-exchange :
      hash_is_empty (exported_hashes workflow_id) ≡ false
      → check now l (exchange_key settings workflow_id host forwarded) ≡ none
      → tries l (exchange_key settings workflow_id host forwarded) < 1024
      → accepted verify (exported_hashes workflow_id) password ≡ true
      → slice_for db [] (principal_ref p) (workflow_of workflow_id ∷ []) ≡ some (s, memo)
      → find_resource (workflow_of workflow_id) s.resources ≡ some (workflow w)
      → w.exported ≡ true
      → (w.visibility == "org_only") ≡ false
      → w.password_protected ≡ true
      → (method_value p.auth_method == "api_key") ≡ false
      → IsPlain (principal_ref p)
      → IsPlain (workflow_of workflow_id)
      → (token : Token) × ((exchange_password_for_token jwt verify dummy_hash exported_hashes
            settings workflow_id password host forwarded now issued l).0
          ≡ ok token)
        × (error_status
              (execute_exported_workflow jwt is_authorized load_policies db settings workflow_id
                (some token)
                p
                time
                st).0
            ≡ (if leb issued time && ltb time (issued + settings.token_ttl_seconds)
                then none
                else some 403))
  execution-exchange stored free few right fetched found exported visible protected person plain_p
        plain_r =
      (
        issue_workflow_token jwt workflow_id settings.token_secret settings.token_ttl_seconds
            issued,
        ap (λ (x : Result Token × RateLimiter). x.0)
              (exchange-checked jwt verify dummy_hash exported_hashes settings workflow_id host
                forwarded password now issued l stored free few)
            ∙ rw right refl,
        execution-issue is_authorized cedar jwt db settings workflow_id workflow_id p issued time st
              s memo w fetched found exported visible protected person plain_p plain_r
            ∙ rw ((eq_iff workflow_id workflow_id).1 refl) refl,
      )
