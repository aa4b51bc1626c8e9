-- ===== src/Publishing/Password.antt =====
-- The password of a published workflow, from the handler that sets it to the exchange that asks for it.
use stackai_authz_service.Prelude.{
  ℕ, ◌<◌, String, ◌≡◌, refl, ◌∙◌, Bool, true, false, ◌&&◌, ◌||◌, Option, none, some, List, [], ◌∷◌,
  map, keep, any, any-append, any-map, All, All-append, All-imp, All-map, All-always, All-not_any,
  if◌then◌else◌, ◌==◌, arith, eq_iff, Bool-cases, inl, inr, cat,
}
use stackai_authz_service.Errors.{ok, err, authz_denied}
use stackai_authz_service.ApiKeys.{Hasher}
use stackai_authz_service.RateLimiter.{RateLimiter, check, tries, record_success}
use stackai_authz_service.RateLimiter.Backoff.{fail}
use stackai_authz_service.WorkflowToken.{Jwt, issue_workflow_token}
use stackai_authz_service.Public.{Settings, exchange_password_for_token}
use stackai_authz_service.Public.Exchange.{exchange_key, accepted, hash_is_empty, exchange-checked}
use stackai_authz_service.Store.{StoredExport, Store}
use stackai_authz_service.Store.Queries.{exported_hashes}
use stackai_authz_service.Publishing.{
  is_workflow, is_export, change, upsert_export, exported_as, unexported, protected_by,
  set_workflow_export, unset_workflow_export, set_workflow_export_protection,
}

module _ (workflow_id : String) where
  -- The workflow is one that the database knows.
  abbrev pub is_known : Store → Bool
  is_known s = any (is_export workflow_id) s.exports || any (is_workflow workflow_id) s.workflows

  -- A row of the workflow has the hash.
  abbrev HasHash : String → StoredExport → Type 0
  HasHash h e = is_export workflow_id e ≡ true → e.password_hash ≡ some h

  -- The workflow has a row, and every row of it has the hash.
  abbrev KeepsHash : String → List StoredExport → Type 0
  KeepsHash h es = (any (is_export workflow_id) es ≡ true) × All (HasHash h) es

  change-HasHash :
      (h : String) (f : StoredExport → StoredExport) (e : StoredExport)
      → (is_export workflow_id e ≡ true → (f e).password_hash ≡ some h)
      → HasHash h (change workflow_id f e)
  change-HasHash h f e k = elim (Bool-cases (is_export workflow_id e)) [
    | inl row ↦ rw row (λ same. k row)
    | inr other ↦ rw other (λ same. absurd (ground arith))
  ]

  -- The password handler leaves the hash in the row of the workflow.
  set_protection-KeepsHash :
      (hasher : Hasher) (password salt : String) (s : Store)
      → is_known s ≡ true
      → KeepsHash
          (hasher.hash salt password)
          (set_workflow_export_protection hasher workflow_id (some password) salt s).1.exports
  unfolding set_workflow_export_protection upsert_export
  set_protection-KeepsHash hasher password salt s known =
      let h = hasher.hash salt password in
      elim (Bool-cases (any (is_export workflow_id) s.exports)) [
        | inl row ↦ rw row (
          any-map (change workflow_id (protected_by (some h))) (is_export workflow_id)
              (is_export workflow_id) s.exports (λ e k. ground arith) row,
          All-map (λ e. Unit {0}) (HasHash h) (change workflow_id (protected_by (some h))) s.exports
              (λ e u. change-HasHash h (protected_by (some h)) e (λ k. refl))
              (All-always (λ e. Unit {0}) s.exports (λ e. tt)),
        )
        | inr absent ↦
            (let there : any (is_workflow workflow_id) s.workflows ≡ true = ground arith in
              rw (absent, there)
                (
                  any-append (is_export workflow_id) s.exports _
                      ∙ ground (arith, eq_iff workflow_id workflow_id),
                  All-append (HasHash h) s.exports _
                      (All-imp (λ e. is_export workflow_id e ≡ false) (HasHash h) s.exports
                        (λ e other same. absurd (ground arith))
                        (All-not_any (is_export workflow_id) s.exports absent))
                      (λ same. refl, tt),
                ))
      ]

  -- A change of the row that spares the hash keeps it.
  change-KeepsHash :
      (h : String) (f : StoredExport → StoredExport) (es : List StoredExport)
      → ((e : StoredExport) → (f e).workflow_id ≡ e.workflow_id)
      → ((e : StoredExport) → (f e).password_hash ≡ e.password_hash)
      → KeepsHash h es
      → KeepsHash h (map (change workflow_id f) es)
  change-KeepsHash h f es id same (there, hashed) = (
    any-map (change workflow_id f) (is_export workflow_id) (is_export workflow_id) es
        (λ e k. rw (k, id e) k) there,
    All-map (HasHash h) (HasHash h) (change workflow_id f) es
        (λ e old. change-HasHash h f e (λ k. same e ∙ old k)) hashed,
  )

  -- Publication keeps the hash, and the row is exported after it.
  set_workflow_export-KeepsHash :
      (h visibility : String) (s : Store)
      → KeepsHash h s.exports
      → KeepsHash h (set_workflow_export workflow_id visibility s).1.exports
        × (any
              (λ e. is_export workflow_id e && e.is_exported)
              (set_workflow_export workflow_id visibility s).1.exports
            ≡ true)
  unfolding set_workflow_export upsert_export
  set_workflow_export-KeepsHash h visibility s kept = rw kept.0 (
    change-KeepsHash h (exported_as visibility) s.exports (λ e. refl) (λ e. refl) kept,
    any-map (change workflow_id (exported_as visibility)) (is_export workflow_id)
        (λ e. is_export workflow_id e && e.is_exported) s.exports (λ e k. ground arith) kept.0,
  )

  unset_workflow_export-KeepsHash :
      (h : String) (s : Store)
      → KeepsHash h s.exports
      → KeepsHash h (unset_workflow_export workflow_id s).1.exports
  unfolding unset_workflow_export
  unset_workflow_export-KeepsHash h s kept =
      change-KeepsHash h unexported s.exports (λ e. refl) (λ e. refl) kept

  abbrev hashes : List StoredExport → List (Option String)
  hashes es =
      map (λ (e : StoredExport). e.password_hash)
        (keep (λ (e : StoredExport). (e.workflow_id == workflow_id) && e.is_exported) es)

  exported_hashes-KeepsHash :
      (h : String) (es : List StoredExport)
      → any (λ e. is_export workflow_id e && e.is_exported) es ≡ true
      → All (HasHash h) es
      → (rest : List (Option String)) × (hashes es ≡ some h ∷ rest)
  exported_hashes-KeepsHash h [] known k = absurd (ground arith)
  exported_hashes-KeepsHash h (e ∷ es) known (here, there) =
      elim (Bool-cases (is_export workflow_id e && e.is_exported)) [
        | inl row ↦ (hashes es, rw (row, here (ground arith)) refl)
        | inr other ↦
            (let (rest, k) = exported_hashes-KeepsHash h es (ground arith) there in
              (rest, rw other k))
      ]

  module _ {Token : Type 0} (jwt : Jwt Token) (hasher : Hasher) (dummy_hash : String)
      (settings : Settings) (host forwarded : Option String) where
    -- The tables after a password has been set, and the workflow published, unpublished and published
    -- again.
    abbrev pub republished : String → String → String → String → Store → Store
    republished password salt first second s =
        let locked = (set_workflow_export_protection hasher workflow_id (some password) salt s).1 in
        let out = (set_workflow_export workflow_id first locked).1 in
        (set_workflow_export workflow_id second (unset_workflow_export workflow_id out).1).1

    republished-KeepsHash :
        (password salt first second : String) (s : Store)
        → is_known s ≡ true
        → (rest : List (Option String)) × (exported_hashes
              (republished password salt first second s)
              workflow_id
            ≡ some (hasher.hash salt password) ∷ rest)
    unfolding exported_hashes
    republished-KeepsHash password salt first second s known =
        let h = hasher.hash salt password in
        let locked = (set_workflow_export_protection hasher workflow_id (some password) salt s).1 in
        let out = (set_workflow_export workflow_id first locked).1 in
        let away = (unset_workflow_export workflow_id out).1 in
        let kept = set_protection-KeepsHash hasher password salt s known in
        let published = (set_workflow_export-KeepsHash h first locked kept).0 in
        let hidden = unset_workflow_export-KeepsHash h out published in
        let (again, exported) = set_workflow_export-KeepsHash h second away hidden in
        exported_hashes-KeepsHash h (republished password salt first second s).exports exported
          again.1

    -- Once a password has been set on a workflow that the database knows, and the workflow has been
    -- published, unpublished and published again, the exchange of a password answers with a token
    -- exactly if it is that password, and counts any other as a failure. The client need not wait and
    -- has fewer than 1024 failures, and the hash is not the empty text.
    pub exchange-republished :
        (password salt first second tried : String) (now time : ℕ) (l : RateLimiter) (s : Store)
        → is_known s ≡ true
        → (hasher.hash salt password == "") ≡ false
        → check now l (exchange_key settings workflow_id host forwarded) ≡ none
        → tries l (exchange_key settings workflow_id host forwarded) < 1024
        → exchange_password_for_token jwt hasher.verify dummy_hash
            (exported_hashes (republished password salt first second s))
            settings
            workflow_id
            tried
            host
            forwarded
            now
            time
            l
          ≡ (if password == tried
              then (
                ok (
                    issue_workflow_token jwt workflow_id settings.token_secret
                      settings.token_ttl_seconds time),
                record_success l (exchange_key settings workflow_id host forwarded),
              )
              else (
                err (authz_denied none "WorkflowAccess" (cat "Workflow::" workflow_id)),
                fail now l (exchange_key settings workflow_id host forwarded),
              ))
    unfolding hash_is_empty accepted
    exchange-republished password salt first second tried now time l s known full free few =
        let t = republished password salt first second s in
        let (rest, e) = republished-KeepsHash password salt first second s known in
        let stored : hash_is_empty (exported_hashes t workflow_id) ≡ false =
          rw (e, hash_is_empty) full in
        let verdict : accepted hasher.verify (exported_hashes t workflow_id) tried
            ≡ (password == tried) =
          rw (e, accepted) (rw (hasher.verify_hash salt password tried) (ground arith)) in
        exchange-checked jwt hasher.verify dummy_hash (exported_hashes t) settings workflow_id host
          forwarded tried now time l stored free few
        ∙ rw verdict refl
