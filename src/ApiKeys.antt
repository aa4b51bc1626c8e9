-- ===== src/ApiKeys.antt =====
-- src/app/auth/api_key.py, src/app/infra/api_key_repository.py and src/app/api/routers/api_keys.py: the
-- table of API keys, how a key is minted, stored, revoked, and how it authenticates. argon2 and the
-- random texts are parameters; times are those that the texts in the table denote.
pub mod Lifecycle
pub mod Listing
use Prim.Native.Char.{Char, code}
use Prim.Native.String
use stackai_authz_service.Prelude.{
  ℕ, String, ◌≡◌, Bool, true, false, ◌&&◌, ◌||◌, not, Option, none, some, List, [], ◌∷◌, ◌++◌, map,
  any, keep, find, is_empty, mem_text, has_repeats, eqb, leb, if◌then◌else◌, ◌>>=◌, ◌==◌, cat,
}
use stackai_authz_service.Errors.{
  Result, ok, err, unknown_api_key_scope, resource_not_visible, crash,
}
use stackai_authz_service.Principal.{Principal, api_key}

-- `hash salt secret`; `verify hash secret` is `none` where argon2 raises, as it does on a mismatch.
pub record Hasher : Type 0 where
  pub hash : String → String → String
  pub verify : String → String → Option Bool
  pub verify_hash :
      (salt secret tried : String)
      → verify (hash salt secret) tried ≡ (if secret == tried then some true else none)

-- A row of `api_keys` with its embedded grants.
pub record ApiKeyRow : Type 0 where
  pub id : String
  pub user_id : String
  pub org_id : String
  pub name : String
  pub prefix : String
  pub key_hash : String
  pub expires_at : Option ℕ
  pub revoked_at : Option ℕ
  pub scopes : List String

-- The text before the first underscore and the one after it.
unfoldable pub split_once : String → Option (String × String)
split_once String.[] = none
split_once (String.◌∷◌ c s) =
    let rest = split_once s in
    if eqb (code c) b'_'
    then some ("", s)
    else elim rest [ none ↦ none | some (front, back) ↦ some (String.◌∷◌ c front, back) ]

-- `split_api_key`
unfoldable pub split_api_key : String → Option (String × String)
unfolding split_once
split_api_key full = do
  (tag, rest) ← split_once full
  (prefix, secret) ← split_once rest
  if tag == "ew" then some (prefix, secret) else none

-- The text that `mint_api_key` makes of the random prefix and secret.
unfoldable pub full_key : String → String → String
full_key prefix secret = cat "ew_" (cat prefix (cat "_" secret))

abbrev pub verified : Option Bool → Bool
verified none = false
verified (some b) = b

-- `_is_expired`
unfoldable pub is_expired : ℕ → Option ℕ → Bool
is_expired now none = false
is_expired now (some t) = leb t now

abbrev pub is_set : Option ℕ → Bool
is_set none = false
is_set (some t) = true

module _ (hasher : Hasher) where
  -- `verify_api_key`
  unfoldable pub verify_api_key : String → String → Bool
  unfolding split_api_key
  verify_api_key full hashed = elim (split_api_key full) [
    | none ↦ false
    | some (prefix, secret) ↦ verified (hasher.verify hashed secret)
  ]

  abbrev key_principal : ApiKeyRow → Principal
  key_principal row = record {
    subject = row.user_id;
    auth_method = api_key;
    email = none;
    api_key_scopes = row.scopes;
    api_key_org_id = some row.org_id;
  }

  abbrev usable : String → ℕ → ApiKeyRow → Option Principal
  usable raw now row =
      if is_set row.revoked_at
        || is_expired now row.expires_at
        || not (verify_api_key raw row.key_hash)
      then none
      else some (key_principal row)

  -- `SupabaseApiKeyRepository.by_prefix`: the first row with the prefix
  unfoldable pub by_prefix : String → List ApiKeyRow → Option ApiKeyRow
  by_prefix prefix rows = find (λ row. row.prefix == prefix) rows

  -- `ApiKeyAuthenticator.authenticate`, of the header's text
  unfoldable pub authenticate_key : List ApiKeyRow → ℕ → Option String → Option Principal
  unfolding split_api_key by_prefix verify_api_key is_expired
  authenticate_key rows now none = none
  authenticate_key rows now (some raw) = if raw == "" then none else (do
    (prefix, secret) ← split_api_key raw
    row ← by_prefix prefix rows
    usable raw now row)

-- `_validate_scopes`
unfoldable pub unknown_scopes : List String → List String
unknown_scopes names = keep (λ n. not (mem_text n ("workflow:read" ∷ "workflow:run" ∷ []))) names

module _ (hasher : Hasher) where
  -- `create_api_key` behind its guard: the key's full text, and the table. `id` is the one that the
  -- database gives; `prefix`, `secret` and `salt` are random. The key and its grants are inserted by
  -- two requests to the database: a scope that is named twice breaks the second, and the key stays
  -- without grants.
  unfoldable pub create_api_key :
      (user_id org_id name : String)
      → List String
      → Option ℕ
      → (id prefix secret salt : String) → List ApiKeyRow
      → Result String × List ApiKeyRow
  unfolding unknown_scopes full_key
  create_api_key user_id org_id name scopes expires_at id prefix secret salt rows =
      let row : ApiKeyRow = record {
        id = id;
        user_id = user_id;
        org_id = org_id;
        name = name;
        prefix = prefix;
        key_hash = hasher.hash salt secret;
        expires_at = expires_at;
        revoked_at = none;
        scopes = scopes;
      } in
      if not (is_empty (unknown_scopes scopes))
      then (err (unknown_api_key_scope (unknown_scopes scopes)), rows)
      else if any (λ (other : ApiKeyRow). other.prefix == prefix) rows
      then (err crash, rows)
      else if has_repeats scopes
      then (err crash, rows ++ (record row { scopes = [] } ∷ []))
      else (ok (full_key prefix secret), rows ++ (row ∷ []))

abbrev pub is_key_of : String → String → ApiKeyRow → Bool
is_key_of org_id key_id row = row.id == key_id && row.org_id == org_id

abbrev pub revoke_row : String → String → ℕ → ApiKeyRow → ApiKeyRow
revoke_row org_id key_id now row =
    if is_key_of org_id key_id row then record row { revoked_at = some now } else row

-- `revoke_api_key` behind its guard
unfoldable pub revoke_api_key :
    (org_id key_id : String) → ℕ → List ApiKeyRow → Result (Unit {0}) × List ApiKeyRow
revoke_api_key org_id key_id now rows = (
  (if any (is_key_of org_id key_id) rows
      then ok tt
      else err (resource_not_visible (cat "ApiKey:" key_id))),
  map (revoke_row org_id key_id now) rows,
)
