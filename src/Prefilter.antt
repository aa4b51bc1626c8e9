-- ===== src/Prefilter.antt =====
-- src/app/infra/prefilter.py: the SQL predicate that narrows the rows of the list endpoint.
pub mod Exact
pub mod Text
use stackai_authz_service.Prelude.{
  String, Bool, ◌&&◌, ◌||◌, List, [], ◌∷◌, ◌++◌, is_empty, mem_text, sorted, cat, if◌then◌else◌,
}
use stackai_authz_service.Capability.{view, manage_org}
use stackai_authz_service.Entities.{WorkflowEntity}
use stackai_authz_service.Provider.{CapabilitySlice, teams_with, orgs_with}
use stackai_authz_service.Engine.{join}

pub record PrefilterSpec : Type 0 where
  pub team_ids : List String
  pub org_ids : List String

-- `PrefilterSpec.is_empty`
unfoldable pub spec_is_empty : PrefilterSpec → Bool
spec_is_empty s = is_empty s.team_ids && is_empty s.org_ids

-- `PrefilterSpec.matches`, on an entity that has a team and an organization
unfoldable pub matches : PrefilterSpec → WorkflowEntity → Bool
matches s w = mem_text w.team.id s.team_ids || mem_text w.org.id s.org_ids

abbrev clause : String → List String → List String
clause column ids =
    if is_empty ids then [] else cat column (cat ".in.(" (cat (join "," (sorted ids)) ")")) ∷ []

-- `PrefilterSpec.to_postgrest_or`
unfoldable pub to_postgrest_or : PrefilterSpec → String
unfolding join sorted
to_postgrest_or s = join "," (clause "team_id" s.team_ids ++ clause "org_id" s.org_ids)

unfoldable pub build_workflow_prefilter : CapabilitySlice → PrefilterSpec
unfolding teams_with orgs_with
build_workflow_prefilter s = record {
  team_ids = teams_with view s;
  org_ids = orgs_with manage_org s;
}
