-- ===== src/Store/Queries.antt =====
-- The queries of the entity provider and of the exchange of a password, on the tables.
use stackai_authz_service.Prelude.{
  String, Bool, Option, none, some, List, map, keep, find, mem_text, ◌==◌, ◌&&◌,
}
use stackai_authz_service.Provider.{Database, MembershipRow, WorkflowRow, Embedded, null, object}
use stackai_authz_service.Store.{
  RoleRow, OrgMembership, TeamMembership, StoredWorkflow, StoredExport, Store, find_role,
}

abbrev pub names_of : Option RoleRow → Option (List String)
names_of none = none
names_of (some r) = some r.capabilities

abbrev pub embedded : Option StoredExport → Embedded
embedded none = null
embedded (some e) = object (record {
  is_exported = e.is_exported;
  visibility = e.visibility;
  password_hash = e.password_hash;
})

-- `roles(id, role_capabilities(capability))` of a membership
unfoldable pub org_row : Store → OrgMembership → MembershipRow
unfolding find_role
org_row s m = record { scope_id = m.org_id; role = names_of (find_role m.role_id s.roles) }

unfoldable pub team_row : Store → TeamMembership → MembershipRow
unfolding find_role
team_row s m = record { scope_id = m.team_id; role = names_of (find_role m.role_id s.roles) }

unfoldable pub find_export : String → List StoredExport → Option StoredExport
find_export workflow_id exports = find (λ e. e.workflow_id == workflow_id) exports

-- `*, workflow_exports(*)` of a workflow
unfoldable pub workflow_row : Store → StoredWorkflow → WorkflowRow
unfolding find_export
workflow_row s w = record {
  id = w.id;
  org_id = w.org_id;
  team_id = w.team_id;
  name = w.name;
  exports = embedded (find_export w.id s.exports);
}

-- `is_uuid` tells whether `uuid.UUID` accepts a text.
unfoldable pub queries : (String → Bool) → Store → Database
unfolding org_row team_row workflow_row
queries is_uuid s = record {
  is_uuid = is_uuid;
  team_memberships = λ user. map (team_row s) (keep (λ m. m.user_id == user) s.team_memberships);
  org_memberships = λ user. map (org_row s) (keep (λ m. m.user_id == user) s.org_memberships);
  workflows_in = λ ids. map (workflow_row s) (keep (λ w. mem_text w.id ids) s.workflows);
  teams_in = λ ids. keep (λ t. mem_text t.id ids) s.teams;
}

-- The query of the exchange of a password: the hashes of the exported rows of a workflow.
unfoldable pub exported_hashes : Store → String → List (Option String)
exported_hashes s workflow_id =
    map (λ (e : StoredExport). e.password_hash)
      (keep (λ (e : StoredExport). (e.workflow_id == workflow_id) && e.is_exported) s.exports)
