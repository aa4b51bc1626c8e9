-- ===== src/ApiKeys/Listing.antt =====
-- `list_api_keys` of src/app/api/routers/api_keys.py, behind its guard. `times` gives the columns
-- `created_at` and `last_used_at` of a key, which no other code reads.
use stackai_authz_service.Prelude.{ℕ, String, Option, List, map, keep, ◌==◌, ◌>>=◌}
use stackai_authz_service.Principal.{Principal}
use stackai_authz_service.ApiKeys.{ApiKeyRow}

pub record ApiKeyRead : Type 0 where
  pub id : String
  pub name : String
  pub prefix : String
  pub scopes : List String
  pub created_at : ℕ
  pub expires_at : Option ℕ
  pub revoked_at : Option ℕ
  pub last_used_at : Option ℕ

-- `_to_read`
abbrev pub to_read : (String → ℕ × Option ℕ) → ApiKeyRow → ApiKeyRead
to_read times row = record {
  id = row.id;
  name = row.name;
  prefix = row.prefix;
  scopes = row.scopes;
  created_at = (times row.id).0;
  expires_at = row.expires_at;
  revoked_at = row.revoked_at;
  last_used_at = (times row.id).1;
}

unfoldable pub list_api_keys :
    (String → ℕ × Option ℕ) → (org_id : String) → List ApiKeyRow → List ApiKeyRead
list_api_keys times org_id rows = map (to_read times) (keep (λ row. row.org_id == org_id) rows)
