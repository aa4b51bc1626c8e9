-- ===== src/Public/Exchange.antt =====
-- The exchange of a password for a token, with the pauses that its failures bring.
use stackai_authz_service.Prelude.{
  ℕ, ◌+◌, ◌-◌, ◌<◌, String, Bool, false, ◌≡◌, refl, ◌∙◌, ap, ◌||◌, not, Option, none, some, List,
  [], ◌∷◌, arith, if◌then◌else◌, cat, ◌==◌,
}
use stackai_authz_service.Errors.{Result, ok, err, authz_denied, rate_limited}
use stackai_authz_service.RateLimiter.{RateLimiter, check, tries, record_success}
use stackai_authz_service.RateLimiter.Keys.{Key, key_eq_refl}
use stackai_authz_service.RateLimiter.Backoff.{pause, fail, check-record_failure}
use stackai_authz_service.WorkflowToken.{Jwt, issue_workflow_token}
use stackai_authz_service.Public.{
  Settings, client_ip, verify_password, hash_or_dummy, is_missing, stored_hash,
  exchange_password_for_token,
}

-- The key of an exchange: the workflow and the client.
abbrev pub exchange_key : Settings → String → Option String → Option String → Key
exchange_key settings workflow_id host forwarded = record {
  workflow_id = workflow_id;
  client = client_ip host forwarded settings;
}

abbrev verified : Option Bool → Bool
verified none = false
verified (some b) = b

-- Whether the password is the one of the published workflow: there is a row with a hash, and the
-- library verifies the password against that hash.
unfoldable pub accepted : (String → String → Option Bool) → List (Option String) → String → Bool
accepted verify [] password = false
accepted verify (none ∷ rows) password = false
accepted verify (some hash ∷ rows) password = verified (verify hash password)

-- Whether the hash of the row is the empty text.
unfoldable pub hash_is_empty : List (Option String) → Bool
hash_is_empty [] = false
hash_is_empty (none ∷ rows) = false
hash_is_empty (some hash ∷ rows) = hash == ""

refused-accepted :
    (verify : String → String → Option Bool) (dummy password : String) (rows : List (Option String))
    → hash_is_empty rows ≡ false
    → (not (verify_password verify password (hash_or_dummy dummy (stored_hash rows)))
        || is_missing (stored_hash rows))
      ≡ not (accepted verify rows password)
unfolding hash_is_empty verify_password hash_or_dummy stored_hash accepted
refused-accepted verify dummy password [] h = ground arith
refused-accepted verify dummy password (none ∷ rows) h = ground arith
refused-accepted verify dummy password (some hash ∷ rows) h = rw h (ground arith)

module _ {Token : Type 0} (jwt : Jwt Token) (verify : String → String → Option Bool)
    (dummy_hash : String) (exported_hashes : String → List (Option String)) (settings : Settings)
    (workflow_id : String) (host forwarded : Option String) where
  -- For a client that need not wait and has fewer than 1024 failures, the exchange of a password for
  -- a published workflow answers with a token exactly if the password is accepted, and forgets the
  -- client's failures; any other answer is one and the same denial, whether the workflow is unknown,
  -- unprotected or protected by another password, and makes the client wait. The stored hash is not
  -- the empty text.
  pub exchange-checked :
      (password : String) (now time : ℕ) (l : RateLimiter)
      → hash_is_empty (exported_hashes workflow_id) ≡ false
      → check now l (exchange_key settings workflow_id host forwarded) ≡ none
      → tries l (exchange_key settings workflow_id host forwarded) < 1024
      → exchange_password_for_token jwt verify dummy_hash exported_hashes settings workflow_id
          password host forwarded now time l
        ≡ (if accepted verify (exported_hashes workflow_id) password
            then (
              ok (
                  issue_workflow_token jwt workflow_id settings.token_secret
                    settings.token_ttl_seconds time),
              record_success l (exchange_key settings workflow_id host forwarded),
            )
            else (
              err (authz_denied none "WorkflowAccess" (cat "Workflow::" workflow_id)),
              fail now l (exchange_key settings workflow_id host forwarded),
            ))
  unfolding exchange_password_for_token
  exchange-checked password now time l stored free few =
      let key = exchange_key settings workflow_id host forwarded in
      let settled = (check-record_failure now now l key key few).0 in
      let refused =
        refused-accepted verify dummy_hash password (exported_hashes workflow_id) stored in
      ground arith

  exchange-blocked :
      (password : String) (now time : ℕ) (l : RateLimiter) (left : ℕ)
      → check now l (exchange_key settings workflow_id host forwarded) ≡ some left
      → exchange_password_for_token jwt verify dummy_hash exported_hashes settings workflow_id
          password host forwarded now time l
        ≡ (err (rate_limited left), l)
  unfolding exchange_password_for_token
  exchange-blocked password now time l left h = ground arith

  -- After a password that is not accepted, every exchange of that client for that workflow, with the
  -- right password too, is answered 429 with the time left until the pause is over, and changes
  -- nothing. The pause doubles with each failure that is counted.
  pub exchange-exchange :
      (wrong next : String) (now time t later : ℕ) (l : RateLimiter)
      → hash_is_empty (exported_hashes workflow_id) ≡ false
      → check now l (exchange_key settings workflow_id host forwarded) ≡ none
      → tries l (exchange_key settings workflow_id host forwarded) < 1024
      → accepted verify (exported_hashes workflow_id) wrong ≡ false
      → t < now + pause l (tries l (exchange_key settings workflow_id host forwarded))
      → (let after =
            (exchange_password_for_token jwt verify dummy_hash exported_hashes settings workflow_id
              wrong host forwarded now time l).1 in
          exchange_password_for_token jwt verify dummy_hash exported_hashes settings workflow_id
            next host forwarded t later after
          ≡ (
            err (
                rate_limited
                  (now + pause l (tries l (exchange_key settings workflow_id host forwarded)) - t)),
            after,
          ))
  exchange-exchange wrong next now time t later l stored free few denied early =
      let key = exchange_key settings workflow_id host forwarded in
      let after =
        (exchange_password_for_token jwt verify dummy_hash exported_hashes settings workflow_id
          wrong host forwarded now time l).1 in
      let moved : after ≡ fail now l key =
        ap (λ (x : Result Token × RateLimiter). x.1)
          (exchange-checked wrong now time l stored free few)
        ∙ rw denied refl in
      let blocked = (check-record_failure now t l key key few).1 in
      exchange-blocked next t later _ _ (
        ap (λ (x : RateLimiter). check t x key) moved
        ∙ blocked
        ∙ rw (key_eq_refl key) (ground arith))
