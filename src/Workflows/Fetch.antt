-- ===== src/Workflows/Fetch.antt =====
-- What the provider returns for rows of the list endpoint that stand in the tables.
use stackai_authz_service.Prelude.{
  String, Bool, true, ◌≡◌, refl, ◌∙◌, ap, Option, none, some, List, [], ◌∷◌, map, keep, find,
  mem_text, All, All-imp, append-nil, arith, Bool-cases, inl, inr, eq_iff, ◌==◌,
}
use stackai_authz_service.Entities.{WorkflowEntity, Resource, workflow, find_resource, ref_eq}
use stackai_authz_service.Cedar.{IsPlain}
use stackai_authz_service.Provider.{
  CapabilitySlice, ExportRow, Embedded, null, object, array, WorkflowRow, Memo, export_of,
  build_workflow_entity, workflow_entities, capability_slice, fetch_workflows, fetch_entities,
  slice_for, build_slice, wanted,
}
use stackai_authz_service.Principal.{Principal, principal_ref}
use stackai_authz_service.Prefilter.Exact.{workflow_ref}
use stackai_authz_service.Store.{StoredWorkflow, StoredExport, Store}
use stackai_authz_service.Store.Queries.{queries, embedded, find_export, workflow_row}
use stackai_authz_service.Workflows.Judged.{Holds}

abbrev export_in : Embedded → Option ExportRow
export_in null = none
export_in (object export) = some export
export_in (array []) = none
export_in (array (export ∷ exports)) = some export

-- The entity of a row.
abbrev pub entity : WorkflowRow → WorkflowEntity
entity row = build_workflow_entity row (export_in row.exports)

-- The row is the one that the tables have under its id, and its reference is plain.
abbrev pub IsStored : Store → WorkflowRow → Type 0
IsStored s row =
    (w : StoredWorkflow) × (find (λ x. x.id == row.id) s.workflows ≡ some w)
    × (workflow_row s w ≡ row)
    × IsPlain (workflow_ref row)

export_of-embedded :
    (e : Option StoredExport) → export_of (embedded e) ≡ some (export_in (embedded e))
unfolding export_of
export_of-embedded none = refl
export_of-embedded (some e) = refl

module _ (s : Store) where
  abbrev stored_entity : StoredWorkflow → Resource
  stored_entity w = workflow (entity (workflow_row s w))

  workflow_entities-stored :
      (ws : List StoredWorkflow)
      → workflow_entities (map (workflow_row s) ws) ≡ some (map (λ w. stored_entity w) ws)
  unfolding workflow_entities workflow_row
  workflow_entities-stored [] = refl
  workflow_entities-stored (w ∷ ws) =
      rw (export_of-embedded (find_export w.id s.exports), workflow_entities-stored ws) refl

  find_resource-stored :
      (ws : List StoredWorkflow) (i : String) (w : StoredWorkflow)
      → find (λ x. x.id == i) ws ≡ some w
      → find_resource (record { kind = "Workflow"; id = i }) (map (λ w. stored_entity w) ws)
        ≡ some (stored_entity w)
  unfolding find_resource ref_eq build_workflow_entity workflow_row
  find_resource-stored [] i w h = absurd (cc)
  find_resource-stored (x ∷ ws) i w h = elim (Bool-cases (x.id == i)) [
    | inl here ↦
        (let same : x ≡ w = ground arith in rw here (ap (λ v. some (stored_entity v)) same))
    | inr there ↦ rw there (find_resource-stored ws i w (ground arith))
  ]

  find-among :
      (ws : List StoredWorkflow) (ids : List String) (i : String)
      → mem_text i ids ≡ true
      → find (λ x. x.id == i) (keep (λ w. mem_text w.id ids) ws) ≡ find (λ x. x.id == i) ws
  find-among [] ids i h = refl
  find-among (x ∷ ws) ids i h = elim (Bool-cases (x.id == i)) [
    | inl here ↦
        (let same : x.id ≡ i = ground (arith, eq_iff x.id i) in
          let mine : mem_text x.id ids ≡ true = rw same h in ground (arith))
    | inr there ↦ ground (arith, find-among ws ids i h)
  ]

  -- The entities of the rows with some ids hold each stored row with one of the ids.
  holds-among :
      (ids : List String) (rows : List WorkflowRow)
      → All (λ (row : WorkflowRow). mem_text row.id ids ≡ true) rows
      → All (IsStored s) rows
      → All
          (λ row.
            (find_resource
                (workflow_ref row)
                (map (λ w. stored_entity w) (keep (λ w. mem_text w.id ids) s.workflows))
              ≡ some (workflow (entity row)))
            × IsPlain (workflow_ref row))
          rows
  holds-among ids [] h k = tt
  holds-among ids (row ∷ rows) (here, there) ((w, found, same, plain), k) = (
    (
      find_resource-stored (keep (λ x. mem_text x.id ids) s.workflows) row.id w
            (find-among s.workflows ids row.id here ∙ found)
          ∙ ap (λ r. some (workflow (entity r))) same,
      plain,
    ),
    holds-among ids rows there k,
  )

wanted-rows :
    (rows : List WorkflowRow)
    → (wanted "Workflow" (map (λ row. workflow_ref row) rows)
        ≡ map (λ (row : WorkflowRow). row.id) rows)
      × (wanted "Team" (map (λ row. workflow_ref row) rows) ≡ [])
      × (wanted "Organization" (map (λ row. workflow_ref row) rows) ≡ [])
unfolding wanted
wanted-rows [] = (refl, refl, refl)
wanted-rows (row ∷ rows) =
    let (ids, teams, orgs) = wanted-rows rows in (ap (λ l. row.id ∷ l) ids, teams, orgs)

mem_cons :
    (i : String) (ids : List String) (rows : List WorkflowRow)
    → All (λ (row : WorkflowRow). mem_text row.id ids ≡ true) rows
    → All (λ (row : WorkflowRow). mem_text row.id (i ∷ ids) ≡ true) rows
mem_cons i ids rows h = All-imp _ _ rows (λ row k. ground arith) h

mem_own :
    (rows : List WorkflowRow)
    → All
        (λ (row : WorkflowRow). mem_text row.id (map (λ (x : WorkflowRow). x.id) rows) ≡ true)
        rows
mem_own [] = tt
mem_own (row ∷ rows) = (ground (arith, eq_iff row.id row.id), mem_cons row.id _ rows (mem_own rows))

module _ (is_uuid : String → Bool) (s : Store) (p : Principal) (caps : CapabilitySlice)
    (m : Memo) where
  fetch_workflows-rows :
      (rows : List WorkflowRow)
      → All (IsStored s) rows
      → (es : List Resource) × (fetch_workflows
            (queries is_uuid s)
            (map (λ (row : WorkflowRow). row.id) rows)
          ≡ some es)
        × Holds (build_slice (principal_ref p) caps es) (λ row. entity row) rows
  unfolding fetch_workflows build_slice queries
  fetch_workflows-rows [] h = ([], refl, tt)
  fetch_workflows-rows (row ∷ rows) h =
      let ids = map (λ (x : WorkflowRow). x.id) (row ∷ rows) in
      (
        _,
        workflow_entities-stored s (keep (λ w. mem_text w.id ids) s.workflows),
        holds-among s ids (row ∷ rows) (mem_own (row ∷ rows)) h,
      )

  -- With a memo that has the caller's capabilities, the provider returns for stored rows a slice that
  -- holds each of them, and leaves the memo as it is.
  pub slice_for-rows :
      (rows : List WorkflowRow)
      → capability_slice (queries is_uuid s) m p.subject ≡ some (caps, m)
      → All (IsStored s) rows
      → (es : List Resource) × (slice_for
            (queries is_uuid s)
            m
            (principal_ref p)
            (map (λ row. workflow_ref row) rows)
          ≡ some (build_slice (principal_ref p) caps es, m))
        × Holds (build_slice (principal_ref p) caps es) (λ row. entity row) rows
  unfolding slice_for fetch_entities
  slice_for-rows rows known stored =
      let (es, fetched, holds) = fetch_workflows-rows rows stored in
      let (ids, teams, orgs) = wanted-rows rows in
      let entities : fetch_entities (queries is_uuid s) (map (λ row. workflow_ref row) rows)
          ≡ some es =
        rw (ids, teams, orgs, fetched, fetch_entities) (ap (λ l. some l) (append-nil es)) in
      (es, rw (known, entities, slice_for) refl, holds)
