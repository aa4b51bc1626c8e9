-- ===== src/Tests.antt =====
-- The data of the tests: one organization, one team, one exported workflow, and a viewer of the team.
pub mod Access
pub mod Externals
pub mod Listing
pub mod Routing
pub mod Cases
pub mod Browsing
pub mod Tables
pub mod Requests
use stackai_authz_service.Prelude.{
  ℕ, String, Bool, true, false, ◌≡◌, refl, Option, none, some, List, [], ◌∷◌, keep, mem_text,
}
use stackai_authz_service.Entities.{EntityRef, EntitySlice, Resource, workflow}
use stackai_authz_service.Capability.{view, run}
use stackai_authz_service.Provider.{
  Database, Memo, WorkflowRow, ExportRow, Embedded, object, CapabilitySlice, build_workflow_entity,
  build_slice,
}
use stackai_authz_service.Principal.{Principal, jwt, api_key}
use stackai_authz_service.Errors.{RequestState}

abbrev pub export_row : ExportRow
export_row = record { is_exported = true; visibility = "public"; password_hash = some "hash" }

abbrev pub workflow_row : WorkflowRow
workflow_row = record {
  id = "w1";
  org_id = "o1";
  team_id = "t1";
  name = "report";
  exports = object export_row;
}

abbrev pub database : Database
database = record {
  is_uuid = λ s. true;
  team_memberships = λ u. record { scope_id = "t1"; role = some ("view" ∷ "run" ∷ []) } ∷ [];
  org_memberships = λ u. [];
  workflows_in = λ ids. keep (λ (row : WorkflowRow). mem_text row.id ids) (workflow_row ∷ []);
  teams_in = λ ids. [];
}

abbrev pub ann : Principal
ann = record {
  subject = "ann";
  auth_method = jwt;
  email = none;
  api_key_scopes = [];
  api_key_org_id = none;
}

abbrev pub ann_ref : EntityRef
ann_ref = record { kind = "User"; id = "ann" }

abbrev pub target : EntityRef
target = record { kind = "Workflow"; id = "w1" }

abbrev pub ann_caps : CapabilitySlice
ann_caps = record { team_caps = ("t1", view ∷ run ∷ []) ∷ []; org_caps = [] }

abbrev pub resource : Resource
unfolding build_workflow_entity
resource = workflow (build_workflow_entity workflow_row (some export_row))

abbrev pub slice : EntitySlice
unfolding build_slice
slice = build_slice ann_ref ann_caps (resource ∷ [])

abbrev pub after : Memo
after = ("ann", ann_caps) ∷ []
