-- ===== src/Service/Known.antt =====
-- The capabilities of the roles in the tables, and src/app/infra/entity_provider.py that reads them.
use stackai_authz_service.Prelude.{
  String, ◌≡◌, refl, Bool, true, not, Option, none, some, List, [], ◌∷◌, ◌++◌, map, keep, is_empty,
  mem_text, All, All-append, All-find, ◌==◌, arith, Bool-cases, Option-cases, inl, inr,
}
use stackai_authz_service.Cedar.{Cedar, Policy}
use stackai_authz_service.Principal.{Principal}
use stackai_authz_service.ApiKeys.{Hasher}
use stackai_authz_service.Capability.{Capability, capability_value, all_capabilities}
use stackai_authz_service.Entities.{EntityRef, Resource, workflow, org, EntitySlice}
use stackai_authz_service.Provider.{
  CapMap, CapabilitySlice, MembershipRow, Memo, capability_of, parse_caps, role_names, add_caps,
  collect, capability_slice, fetch_workflows, fetch_entities, workflow_entities, wanted, slice_for,
  build_workflow_entity, build_slice, build_org_entity, fetch_teams, empty_slice, export_of,
  ExportRow,
}
use stackai_authz_service.Store.{
  RoleRow, OrgMembership, TeamMembership, StoredWorkflow, StoredExport, Store, find_role,
}
use stackai_authz_service.Store.Functions.{erase_team}
use stackai_authz_service.Store.Queries.{
  queries, names_of, find_export, embedded, org_row, team_row, workflow_row,
}
use stackai_authz_service.Store.Yields.{with_org_membership, join_default_team-Yields}
use stackai_authz_service.Roles.{unknown_capabilities, known_capabilities}
use stackai_authz_service.Service.{Request, serve_all}
use stackai_authz_service.Service.Preserved.{IsPreserved}
use stackai_authz_service.Service.Preserved.Requests.{serve_all-kept}

abbrev pub IsKnown : RoleRow → Type 0
IsKnown r = is_empty (unknown_capabilities r.capabilities) ≡ true

-- Every capability of every role is one of the code's.
unfoldable pub AreKnown : Store → Type 0
AreKnown s = All IsKnown s.roles

AreKnown-IsPreserved : IsPreserved AreKnown
unfolding AreKnown erase_team
AreKnown-IsPreserved = record {
  org_insert = λ m s h fits absent.
      join_default_team-Yields AreKnown m (with_org_membership m s) (λ e. h) (λ t e there. h)
        (λ t role_id e fits. h);
  org_remove = λ other user_id s h more. h;
  org_role = λ other user_id role_id s h more fits. h;
  team_insert = λ t created_by role_id s h default new fits. h;
  team_update = λ t created_by role_id s h plain new. h;
  team_member_insert = λ m s h fits absent. h;
  team_member_remove = λ team_id user_id s h other. h;
  team_role = λ team_id user_id role_id s h fits. h;
  team_delete = λ team_id s h other. h;
  role_insert =
      λ id o name scope capabilities s h known new. All-append IsKnown s.roles _ h (known, tt);
  workflow_change = λ workflows exports s h. h;
  key_change = λ keys s h. h;
}

capability_of-known :
    (n : String) (cs : List Capability)
    → mem_text n (map capability_value cs) ≡ true
    → (c : Capability) × (capability_of n cs ≡ some c)
unfolding capability_of
capability_of-known n [] h = absurd (cc)
capability_of-known n (c ∷ cs) h = elim (Bool-cases (capability_value c == n)) [
  | inl here ↦ (c, rw here refl)
  | inr there ↦ (let (d, e) = capability_of-known n cs (ground arith) in (d, rw there e))
]

is_empty-keep :
    (ks : List String) (n : String) (ns : List String)
    → is_empty (keep (λ m. not (mem_text m ks)) (n ∷ ns)) ≡ true
    → (mem_text n ks ≡ true) × (is_empty (keep (λ m. not (mem_text m ks)) ns) ≡ true)
is_empty-keep ks n ns h = (ground arith, ground arith)

parse_caps-known :
    (names : List String)
    → is_empty (unknown_capabilities names) ≡ true
    → (cs : List Capability) × (parse_caps names ≡ some cs)
unfolding parse_caps unknown_capabilities known_capabilities
parse_caps-known [] h = ([], refl)
parse_caps-known (n ∷ ns) h =
    let (here, there) = is_empty-keep known_capabilities n ns h in
    let (c, e) = capability_of-known n all_capabilities here in
    let (cs, es) = parse_caps-known ns there in (c ∷ cs, rw (e, es) refl)

-- The role of a row has known capabilities, or there is none.
abbrev HasKnown : MembershipRow → Type 0
HasKnown row = is_empty (unknown_capabilities (role_names row.role)) ≡ true

collect-known :
    (rows : List MembershipRow) (m : CapMap)
    → All HasKnown rows
    → (n : CapMap) × (collect rows m ≡ some n)
unfolding collect
collect-known [] m h = (m, refl)
collect-known (row ∷ rows) m (known, h) =
    let (cs, e) = parse_caps-known (role_names row.role) known in
    let (n, es) = collect-known rows (add_caps row.scope_id cs m) h in (n, rw e es)

role-HasKnown :
    (roles : List RoleRow) (role_id : String)
    → All IsKnown roles
    → is_empty (unknown_capabilities (role_names (names_of (find_role role_id roles)))) ≡ true
unfolding find_role unknown_capabilities
role-HasKnown roles role_id h = elim (Option-cases (find_role role_id roles)) [
  | inl e ↦ rw e refl
  | inr (r, e) ↦ rw e (All-find IsKnown (λ x. x.id == role_id) roles r h e)
]

team_rows-HasKnown :
    (s : Store) (ms : List TeamMembership) → AreKnown s → All HasKnown (map (team_row s) ms)
unfolding team_row AreKnown
team_rows-HasKnown s [] h = tt
team_rows-HasKnown s (m ∷ ms) h = (role-HasKnown s.roles m.role_id h, team_rows-HasKnown s ms h)

org_rows-HasKnown :
    (s : Store) (ms : List OrgMembership) → AreKnown s → All HasKnown (map (org_row s) ms)
unfolding org_row AreKnown
org_rows-HasKnown s [] h = tt
org_rows-HasKnown s (m ∷ ms) h = (role-HasKnown s.roles m.role_id h, org_rows-HasKnown s ms h)

export_of-embedded :
    (o : Option StoredExport) → (export : Option ExportRow) × (export_of (embedded o) ≡ some export)
unfolding export_of
export_of-embedded none = (none, refl)
export_of-embedded (some e) = (_, refl)

workflow_entities-stored :
    (s : Store) (ws : List StoredWorkflow)
    → (es : List Resource) × (workflow_entities (map (workflow_row s) ws) ≡ some es)
unfolding workflow_entities workflow_row
workflow_entities-stored s [] = ([], refl)
workflow_entities-stored s (w ∷ ws) =
    let (es, e) = workflow_entities-stored s ws in
    let (export, f) = export_of-embedded (find_export w.id s.exports) in
    (workflow (build_workflow_entity (workflow_row s w) export) ∷ es, rw (f, e) refl)

module _ (is_uuid : String → Bool) (s : Store) (known : AreKnown s) where
  capability_slice-known :
      (id : String)
      → (caps : CapabilitySlice) × (memo : Memo) × (capability_slice (queries is_uuid s) [] id
          ≡ some (caps, memo))
  unfolding capability_slice queries
  capability_slice-known id = elim (Bool-cases (is_uuid id)) [
    | inr other ↦ (empty_slice, (id, empty_slice) ∷ [], rw (other, capability_slice) refl)
    | inl uuid ↦
        (let rows = keep (λ (m : TeamMembership). m.user_id == id) s.team_memberships in
          let rows' = keep (λ (m : OrgMembership). m.user_id == id) s.org_memberships in
          let (teams, e) =
            collect-known (map (team_row s) rows) [] (team_rows-HasKnown s rows known) in
          let (orgs, f) =
            collect-known (map (org_row s) rows') [] (org_rows-HasKnown s rows' known) in
          let caps : CapabilitySlice = record { team_caps = teams; org_caps = orgs } in
          (caps, (id, caps) ∷ [], rw (uuid, e, f, capability_slice) refl))
  ]

  fetch_workflows-stored :
      (ids : List String)
      → (es : List Resource) × (fetch_workflows (queries is_uuid s) ids ≡ some es)
  unfolding fetch_workflows queries
  fetch_workflows-stored [] = ([], refl)
  fetch_workflows-stored (i ∷ is) =
      workflow_entities-stored s (keep (λ (w : StoredWorkflow). mem_text w.id (i ∷ is)) s.workflows)

  -- On tables whose roles are made of the code's capabilities, the provider returns a slice for every
  -- principal and whatever resources.
  pub slice_for-known :
      (p : EntityRef) (rs : List EntityRef)
      → (slice : EntitySlice) × (memo : Memo) × (slice_for (queries is_uuid s) [] p rs
          ≡ some (slice, memo))
  unfolding slice_for fetch_entities
  slice_for-known p rs =
      let (caps, memo, e) = capability_slice-known p.id in
      let (ws, f) = fetch_workflows-stored (wanted "Workflow" rs) in
      let es =
        ws
        ++ (fetch_teams (queries is_uuid s) (wanted "Team" rs)
            ++ map (λ o. org (build_org_entity o)) (wanted "Organization" rs)) in
      let g : fetch_entities (queries is_uuid s) rs ≡ some es = rw (f, fetch_entities) refl in
      (build_slice p caps es, memo, rw (e, g, slice_for) refl)

-- On tables whose roles are made of the code's capabilities, the provider still returns a slice after
-- every sequence of requests, for every principal and whatever resources: no request can create a role
-- that later requests fail on.
pub slice_for-serve_all :
    (is_authorized : Cedar) (policies : List Policy) (hasher : Hasher) (is_uuid : String → Bool)
    (qs : List (Principal × String × Request)) (s : Store) (p : EntityRef) (rs : List EntityRef)
    → AreKnown s
    → (slice : EntitySlice) × (memo : Memo) × (slice_for
          (queries is_uuid (serve_all is_authorized policies hasher is_uuid qs s))
          []
          p
          rs
        ≡ some (slice, memo))
slice_for-serve_all is_authorized policies hasher is_uuid qs s p rs h =
    slice_for-known is_uuid (serve_all is_authorized policies hasher is_uuid qs s)
      (serve_all-kept AreKnown AreKnown-IsPreserved is_authorized policies hasher is_uuid qs s h) p
      rs
