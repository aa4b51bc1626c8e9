-- ===== src/ApiKeys/Lifecycle.antt =====
-- The life of an API key: minted, used, revoked.
use text.Mathlib.TextLemmas.{nil-append, cons-append, append_assoc}
use stackai_authz_service.Prelude.{
  ℕ, String, ◌≡◌, refl, ◌∙◌, ap, Bool, true, false, ◌&&◌, not, none, some, List, [], ◌∷◌, map,
  lacks, if◌then◌else◌, ◌==◌, cat, arith, Bool-cases, inl, inr, eq_iff,
}
use stackai_authz_service.Principal.{Principal, api_key}
use stackai_authz_service.ApiKeys.{
  Hasher, ApiKeyRow, is_set, verified, split_once, split_api_key, full_key, is_expired,
  verify_api_key, by_prefix, authenticate_key, revoke_row, revoke_api_key,
}

underscore : (t : String) → cat "_" t ≡ String.◌∷◌ "_" t
underscore t = cons-append "_" "" t ∙ ap (λ s. String.◌∷◌ "_" s) (nil-append t)

split_once-cat : (s t : String) → lacks b'_' s ≡ true → split_once (cat s (cat "_" t)) ≡ some (s, t)
unfolding split_once lacks
split_once-cat String.[] t h = rw (nil-append, underscore) refl
split_once-cat (String.◌∷◌ c s) t h = rw cons-append (ground (arith, split_once-cat s t))

-- A minted text splits into its prefix and its secret, for a prefix without underscores.
split-full_key :
    (prefix secret : String)
    → lacks b'_' prefix ≡ true
    → split_api_key (full_key prefix secret) ≡ some (prefix, secret)
unfolding split_api_key full_key lacks
split-full_key prefix secret h =
    let head : cat "ew_" (cat prefix (cat "_" secret))
        ≡ cat "ew" (cat "_" (cat prefix (cat "_" secret))) =
      append_assoc "ew" "_" (cat prefix (cat "_" secret)) in
    rw (head, split_once-cat "ew" (cat prefix (cat "_" secret)) refl)
      (rw (split_once-cat prefix secret h) refl)

full_key-nonempty :
    (prefix secret : String) → lacks b'_' prefix ≡ true → (full_key prefix secret == "") ≡ false
unfolding split_api_key split_once
full_key-nonempty prefix secret h = elim (Bool-cases (full_key prefix secret == "")) [
  | inr named ↦ named
  | inl same ↦ absurd (
      ground (
        arith,
        eq_iff (full_key prefix secret) "",
        ap split_api_key ((eq_iff (full_key prefix secret) "").0 same),
        split-full_key prefix secret h,
      ))
]

-- Whether the row takes the secret at the time `now`.
abbrev pub takes : Hasher → ApiKeyRow → String → ℕ → Bool
takes hasher row secret now =
    not (is_set row.revoked_at)
    && not (is_expired now row.expires_at)
    && verified (hasher.verify row.key_hash secret)

abbrev pub owner : ApiKeyRow → Principal
owner row = record {
  subject = row.user_id;
  auth_method = api_key;
  email = none;
  api_key_scopes = row.scopes;
  api_key_org_id = some row.org_id;
}

module _ (hasher : Hasher) where
  verify-full_key :
      (prefix secret hashed : String)
      → lacks b'_' prefix ≡ true
      → verify_api_key hasher (full_key prefix secret) hashed
        ≡ verified (hasher.verify hashed secret)
  unfolding verify_api_key
  verify-full_key prefix secret hashed h = rw (split-full_key prefix secret h, verify_api_key) refl

  authenticate-row :
      (rows : List ApiKeyRow) (now : ℕ) (prefix secret : String) (row : ApiKeyRow)
      → lacks b'_' prefix ≡ true
      → by_prefix hasher prefix rows ≡ some row
      → authenticate_key hasher rows now (some (full_key prefix secret))
        ≡ (if takes hasher row secret now then some (owner row) else none)
  unfolding authenticate_key
  authenticate-row rows now prefix secret row h found =
      rw (full_key-nonempty prefix secret h, split-full_key prefix secret h, found)
        (ground (arith, verify-full_key prefix secret row.key_hash h))

  by_prefix-revoke :
      (org_id key_id : String) (t : ℕ) (prefix : String) (rows : List ApiKeyRow) (row : ApiKeyRow)
      → by_prefix hasher prefix rows ≡ some row
      → by_prefix hasher prefix (map (revoke_row org_id key_id t) rows)
        ≡ some (revoke_row org_id key_id t row)
  unfolding by_prefix
  by_prefix-revoke org_id key_id t prefix [] row h = ground arith
  by_prefix-revoke org_id key_id t prefix (r ∷ rows) row h =
      ground (arith, by_prefix-revoke org_id key_id t prefix rows row)

  -- Revoking a key of an organization ends its use, whatever secret is shown and whenever; a stored
  -- key with another id or in another organization goes on as before.
  pub authenticate-revoke :
      (org_id key_id : String) (t now : ℕ) (prefix secret : String) (rows : List ApiKeyRow)
      (row : ApiKeyRow)
      → lacks b'_' prefix ≡ true
      → by_prefix hasher prefix rows ≡ some row
      → authenticate_key hasher
          (revoke_api_key org_id key_id t rows).1
          now
          (some (full_key prefix secret))
        ≡ (if row.id == key_id && row.org_id == org_id
            then none
            else authenticate_key hasher rows now (some (full_key prefix secret)))
  unfolding revoke_api_key
  authenticate-revoke org_id key_id t now prefix secret rows row h found =
      authenticate-row (map (revoke_row org_id key_id t) rows) now prefix secret
        (revoke_row org_id key_id t row) h (by_prefix-revoke org_id key_id t prefix rows row found)
      ∙ ground (arith, authenticate-row rows now prefix secret row h found)
