-- ===== src/Store.antt =====
-- supabase/migrations/20260820000100_schema.sql: the tables that the service reads and writes, with the
-- rows of role_capabilities and api_key_grants embedded in their parents.
pub mod Triggers
pub mod Functions
pub mod Queries
pub mod Administration
pub mod Defaults
pub mod Yields
use stackai_authz_service.Prelude.{
  String, Bool, true, false, ◌&&◌, Option, none, some, List, find, mem_text, if◌then◌else◌, ◌==◌,
}
use stackai_authz_service.Provider.{TeamRow}
use stackai_authz_service.ApiKeys.{ApiKeyRow}

pub record RoleRow : Type 0 where
  pub id : String
  pub org_id : Option String
  pub name : String
  pub scope : String
  pub capabilities : List String

pub record OrgMembership : Type 0 where
  pub org_id : String
  pub user_id : String
  pub role_id : String

pub record TeamMembership : Type 0 where
  pub team_id : String
  pub user_id : String
  pub role_id : String

pub record StoredWorkflow : Type 0 where
  pub id : String
  pub org_id : String
  pub team_id : String
  pub name : String

pub record StoredExport : Type 0 where
  pub workflow_id : String
  pub is_exported : Bool
  pub visibility : String
  pub password_hash : Option String

pub record Store : Type 0 where
  pub profiles : List String
  pub organizations : List String
  pub roles : List RoleRow
  pub org_memberships : List OrgMembership
  pub teams : List TeamRow
  pub team_memberships : List TeamMembership
  pub workflows : List StoredWorkflow
  pub exports : List StoredExport
  pub api_keys : List ApiKeyRow

-- A statement that the database carries out, or the error that ends its transaction.
pub data Outcome {ℓ} (A : Type ℓ) : Type ℓ where
  done : A → Outcome A
  api_error : (code message : String) → Outcome A

-- What follows a statement in the same transaction.
abbrev pub and_then {ℓ κ} : {A : Type ℓ} {B : Type κ} → Outcome A → (A → Outcome B) → Outcome B
and_then (done a) k = k a
and_then (api_error code message) k = api_error code message

unfoldable pub find_role : String → List RoleRow → Option RoleRow
find_role role_id roles = find (λ r. r.id == role_id) roles

unfoldable pub find_team : String → List TeamRow → Option TeamRow
find_team team_id teams = find (λ t. t.id == team_id) teams

abbrev pub grants : Option RoleRow → String → Bool
grants none capability = false
grants (some r) capability = mem_text capability r.capabilities

-- Whether `role_capabilities` has the row of a role and a capability.
unfoldable pub role_has : List RoleRow → String → String → Bool
unfolding find_role
role_has roles role_id capability = grants (find_role role_id roles) capability
