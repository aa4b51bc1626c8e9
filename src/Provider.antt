-- ===== src/Provider.antt =====
-- src/app/infra/entity_provider.py: `CapabilitySlice` and `SupabaseEntityProvider`. The queries to
-- Supabase and `uuid.UUID` are parameters; a Python set is a list read through membership, a dict an
-- association list. `none` is an exception that the request does not handle: an unknown capability
-- name or an empty embedded list.
pub mod Refs
pub mod Fetched
pub mod Noted
pub mod Keys
use stackai_authz_service.Prelude.{
  String, Bool, true, false, Option, none, some, List, [], ◌∷◌, ◌++◌, map, keep, lookup, insert,
  if◌then◌else◌, ◌>>=◌, ◌==◌, not, is_empty,
}
use stackai_authz_service.Capability
use stackai_authz_service.Capability.{
  Capability, capability_value, all_capabilities, has_capability,
}
use stackai_authz_service.Entities.{
  EntityRef, cap_ref, WorkflowEntity, TeamEntity, OrgEntity, Resource, workflow, team, org,
  EntitySlice,
}

abbrev pub CapMap : Type 0
CapMap = List (String × List Capability)

pub record CapabilitySlice : Type 0 where
  pub team_caps : CapMap
  pub org_caps : CapMap

unfoldable pub keys_with : Capability → CapMap → List String
unfolding has_capability
keys_with c [] = []
keys_with c ((k, caps) ∷ m) =
    let rest = keys_with c m in if has_capability c caps then k ∷ rest else rest

-- `CapabilitySlice.teams_with`, `CapabilitySlice.orgs_with`
unfoldable pub teams_with : Capability → CapabilitySlice → List String
unfolding keys_with
teams_with c s = keys_with c s.team_caps

unfoldable pub orgs_with : Capability → CapabilitySlice → List String
unfolding keys_with
orgs_with c s = keys_with c s.org_caps

unfoldable pub refs_of : String → CapMap → List EntityRef
unfolding cap_ref
refs_of scope [] = []
refs_of scope ((k, caps) ∷ m) = map (λ c. cap_ref c scope k) caps ++ refs_of scope m

-- `CapabilitySlice.cap_refs`
unfoldable pub cap_refs : CapabilitySlice → List EntityRef
unfolding refs_of
cap_refs s = refs_of "team" s.team_caps ++ refs_of "org" s.org_caps

-- A row of a membership table with the embedded role; `role` is the list of its capability names.
pub record MembershipRow : Type 0 where
  pub scope_id : String
  pub role : Option (List String)

pub record ExportRow : Type 0 where
  pub is_exported : Bool
  pub visibility : String
  pub password_hash : Option String

-- What PostgREST embeds for `workflow_exports`.
pub data Embedded : Type 0 where
  null : Embedded
  object : ExportRow → Embedded
  array : List ExportRow → Embedded

pub record WorkflowRow : Type 0 where
  pub id : String
  pub org_id : String
  pub team_id : String
  pub name : String
  pub exports : Embedded

pub record TeamRow : Type 0 where
  pub id : String
  pub org_id : String
  pub name : String
  pub is_default : Bool

-- The reads of the provider, and whether `uuid.UUID(s)` accepts a text.
pub record Database : Type 0 where
  pub is_uuid : String → Bool
  pub team_memberships : String → List MembershipRow
  pub org_memberships : String → List MembershipRow
  pub workflows_in : List String → List WorkflowRow
  pub teams_in : List String → List TeamRow

-- `Capability(name)`
unfoldable pub capability_of : String → List Capability → Option Capability
unfolding capability_value
capability_of name [] = none
capability_of name (c ∷ cs) =
    let rest = capability_of name cs in if capability_value c == name then some c else rest

unfoldable pub parse_caps : List String → Option (List Capability)
unfolding capability_of
parse_caps [] = some []
parse_caps (n ∷ ns) = do c ← capability_of n all_capabilities; cs ← parse_caps ns; some (c ∷ cs)

-- `(row.get("roles") or {}).get("role_capabilities", [])`
abbrev pub role_names : Option (List String) → List String
role_names none = []
role_names (some names) = names

-- `d.setdefault(k, set()).update(caps)`
unfoldable pub add_caps : String → List Capability → CapMap → CapMap
add_caps k caps [] = (k, caps) ∷ []
add_caps k caps ((j, old) ∷ m) =
    let rest = add_caps k caps m in if j == k then (j, old ++ caps) ∷ m else (j, old) ∷ rest

unfoldable pub collect : List MembershipRow → CapMap → Option CapMap
unfolding parse_caps add_caps
collect [] m = some m
collect (row ∷ rows) m = do
  caps ← parse_caps (role_names row.role)
  collect rows (add_caps row.scope_id caps m)

abbrev pub Memo : Type 0
Memo = List (String × CapabilitySlice)

abbrev pub empty_slice : CapabilitySlice
empty_slice = record { team_caps = []; org_caps = [] }

-- The ids of the references of one type: `wanted[kind]`.
unfoldable pub wanted : String → List EntityRef → List String
wanted kind [] = []
wanted kind (r ∷ rs) = let rest = wanted kind rs in if r.kind == kind then r.id ∷ rest else rest

-- `raw_export[0] if isinstance(raw_export, list) else raw_export`
unfoldable pub export_of : Embedded → Option (Option ExportRow)
export_of null = some none
export_of (object row) = some (some row)
export_of (array []) = none
export_of (array (row ∷ rows)) = some (some row)

abbrev is_set : Option String → Bool
is_set none = false
is_set (some h) = true

-- The defaults for a workflow without an export row.
abbrev no_export : ExportRow
no_export = record { is_exported = false; visibility = "public"; password_hash = none }

abbrev or_default : Option ExportRow → ExportRow
or_default none = no_export
or_default (some row) = row

-- `build_workflow_entity`
unfoldable pub build_workflow_entity : WorkflowRow → Option ExportRow → WorkflowEntity
unfolding cap_ref
build_workflow_entity row export = record {
  ref = record { kind = "Workflow"; id = row.id };
  org = record { kind = "Organization"; id = row.org_id };
  team = record { kind = "Team"; id = row.team_id };
  capabilities = λ c. cap_ref c "team" row.team_id;
  exported = (or_default export).is_exported;
  visibility = (or_default export).visibility;
  password_protected = is_set (or_default export).password_hash;
}

-- `build_team_entity`
unfoldable pub build_team_entity : TeamRow → TeamEntity
unfolding cap_ref
build_team_entity row = record {
  ref = record { kind = "Team"; id = row.id };
  org = record { kind = "Organization"; id = row.org_id };
  capabilities = λ c. cap_ref c "team" row.id;
}

-- `build_org_entity`
unfoldable pub build_org_entity : String → OrgEntity
unfolding cap_ref
build_org_entity org_id = record {
  ref = record { kind = "Organization"; id = org_id };
  capabilities = λ c. cap_ref c "org" org_id;
}

-- The loop over the workflow rows.
unfoldable pub workflow_entities : List WorkflowRow → Option (List Resource)
unfolding export_of build_workflow_entity
workflow_entities [] = some []
workflow_entities (row ∷ rows) = do
  export ← export_of row.exports
  rest ← workflow_entities rows
  some (workflow (build_workflow_entity row export) ∷ rest)

-- The capability entities of a resource that the slice must hold.
unfoldable pub resource_caps : Resource → List EntityRef
unfolding cap_ref
resource_caps (workflow w) = map (λ c. cap_ref c "team" w.team.id) all_capabilities
resource_caps (team t) = map (λ c. cap_ref c "team" t.ref.id) all_capabilities
resource_caps (org o) = []

unfoldable pub all_resource_caps : List Resource → List EntityRef
unfolding resource_caps
all_resource_caps [] = []
all_resource_caps (e ∷ es) = resource_caps e ++ all_resource_caps es

abbrev pub key_names : CapMap → List String
key_names m = map (λ (p : String × List Capability). p.0) m

-- The organizations of the principal and of the fetched entities.
unfoldable pub org_ids : CapabilitySlice → List Resource → List String
org_ids caps [] = key_names caps.org_caps
org_ids caps (workflow w ∷ es) = w.org.id ∷ org_ids caps es
org_ids caps (team t ∷ es) = t.org.id ∷ org_ids caps es
org_ids caps (org o ∷ es) = o.ref.id ∷ org_ids caps es

unfoldable pub build_slice : EntityRef → CapabilitySlice → List Resource → EntitySlice
unfolding cap_refs all_resource_caps org_ids cap_ref
build_slice principal caps entities = record {
  principal = record {
    ref = principal;
    capabilities = cap_refs caps;
    orgs = map (λ o. record { kind = "Organization"; id = o }) (key_names caps.org_caps);
  };
  resources = entities;
  caps =
      cap_refs caps
      ++ (all_resource_caps entities
          ++ map (λ o. cap_ref Capability.manage_org "org" o) (org_ids caps entities));
}

module _ (db : Database) where
  -- `capability_slice`: the memo first, then the two queries.
  unfoldable pub capability_slice : Memo → String → Option (CapabilitySlice × Memo)
  unfolding collect
  capability_slice memo user_id = elim (lookup user_id memo) [
    | some known ↦ some (known, memo)
    | none ↦
        if not (db.is_uuid user_id)
        then some (empty_slice, insert user_id empty_slice memo)
        else (do
          team_caps ← collect (db.team_memberships user_id) []
          org_caps ← collect (db.org_memberships user_id) []
          let result : CapabilitySlice = record { team_caps = team_caps; org_caps = org_caps }
          some (result, insert user_id result memo))
  ]

  -- A query is made only if some id is wanted.
  unfoldable pub fetch_workflows : List String → Option (List Resource)
  unfolding workflow_entities
  fetch_workflows ids = if is_empty ids then some [] else workflow_entities (db.workflows_in ids)

  unfoldable pub fetch_teams : List String → List Resource
  unfolding build_team_entity
  fetch_teams ids =
      if is_empty ids then [] else map (λ row. team (build_team_entity row)) (db.teams_in ids)

  -- The entities of the wanted references, in the order workflows, teams, organizations.
  unfoldable pub fetch_entities : List EntityRef → Option (List Resource)
  unfolding wanted fetch_workflows fetch_teams build_org_entity
  fetch_entities resources = do
    workflows ← fetch_workflows (wanted "Workflow" resources)
    some (
        workflows
        ++ (fetch_teams (wanted "Team" resources)
            ++ map (λ o. org (build_org_entity o)) (wanted "Organization" resources)))

  -- `slice_for`
  unfoldable pub slice_for : Memo → EntityRef → List EntityRef → Option (EntitySlice × Memo)
  unfolding capability_slice fetch_entities build_slice
  slice_for memo principal resources = do
    found ← capability_slice memo principal.id
    entities ← fetch_entities resources
    some (build_slice principal found.0 entities, found.1)
