-- ===== src/Publishing/Hidden.antt =====
-- The run of a workflow that has been unpublished.
use stackai_authz_service.Prelude.{
  ℕ, String, ◌≡◌, refl, sym, ◌∙◌, ap, subst, Bool, true, false, Option, none, some, List, [], ◌∷◌,
  append-nil, map, keep, mem_text, any, find_holds, some_inj, All, All-find, All-map, All-always,
  if◌then◌else◌, >>=-eq-some, ◌==◌, arith, eq_iff, Bool-cases, inl, inr, ◌⊎◌,
}
use stackai_authz_service.Action
use stackai_authz_service.Entities.{
  EntityRef, Resource, workflow, WorkflowEntity, EntitySlice, find_resource, resource_ref, ref_eq,
}
use stackai_authz_service.Engine.{AuthzContext}
use stackai_authz_service.Cedar.{Cedar, IsCedar, IsPlain}
use stackai_authz_service.Policies.{load_policies}
use stackai_authz_service.Rules.{rule}
use stackai_authz_service.Rules.Slices.{member_of_slice}
use stackai_authz_service.Provider.{
  Memo, WorkflowRow, ExportRow, export_of, build_workflow_entity, workflow_entities,
  fetch_workflows, fetch_teams, fetch_entities, capability_slice, build_slice, slice_for, wanted,
}
use stackai_authz_service.Principal.{Principal, principal_ref}
use stackai_authz_service.Errors.{RequestState, error_status}
use stackai_authz_service.WorkflowToken.{Jwt}
use stackai_authz_service.Public.{Settings, execute_exported_workflow}
use stackai_authz_service.Public.Context.{run_context}
use stackai_authz_service.Public.Execution.{workflow_of, run_status, execution-status}
use stackai_authz_service.Store.{StoredWorkflow, StoredExport, Store}
use stackai_authz_service.Store.Queries.{queries, workflow_row, embedded, find_export}
use stackai_authz_service.Publishing.{
  is_workflow, is_export, change, unexported, unset_workflow_export,
}
use stackai_authz_service.Service.Known.{AreKnown, slice_for-known}

hidden_entity :
    (o : Option StoredExport) (row : WorkflowRow) (export : Option ExportRow)
    → ((e : StoredExport) → o ≡ some e → e.is_exported ≡ false)
    → export_of (embedded o) ≡ some export
    → (build_workflow_entity row export).exported ≡ false
unfolding export_of build_workflow_entity
hidden_entity none row export h e =
    subst
      (λ x. elim x [
        | none ↦ Unit {0}
        | some export ↦ (build_workflow_entity row export).exported ≡ false
      ])
      e refl
hidden_entity (some x) row export h e =
    subst
      (λ x. elim x [
        | none ↦ Unit {0}
        | some export ↦ (build_workflow_entity row export).exported ≡ false
      ])
      e (h x refl)

workflow_entities-head :
    (row : WorkflowRow) (rows : List WorkflowRow) (es : List Resource)
    → workflow_entities (row ∷ rows) ≡ some es
    → (export : Option ExportRow) × (rest : List Resource) × (export_of row.exports ≡ some export)
      × (es ≡ workflow (build_workflow_entity row export) ∷ rest)
unfolding workflow_entities
workflow_entities-head row rows es h =
    let (export, known, h') = >>=-eq-some (export_of row.exports) _ es h in
    let (rest, listed, h'') = >>=-eq-some (workflow_entities rows) _ es h' in
    (
      export,
      rest,
      known,
      sym (some_inj (workflow (build_workflow_entity row export) ∷ rest) es h''),
    )

-- A workflow that is not exported runs for nobody from outside.
rule-hidden :
    (member : EntityRef → Bool) (c : AuthzContext) (w : WorkflowEntity)
    → w.exported ≡ false
    → rule member c Action.workflow_run_exported (workflow w) ≡ false
unfolding rule
rule-hidden member c w h = ground arith

module _ (workflow_id : String) where
  IsHidden : StoredExport → Type 0
  IsHidden e = is_export workflow_id e ≡ true → e.is_exported ≡ false

  unexported-IsHidden :
      (es : List StoredExport) → All IsHidden (map (change workflow_id unexported) es)
  unfolding IsHidden
  unexported-IsHidden es =
      All-map (λ e. Unit {0}) IsHidden (change workflow_id unexported) es
        (λ e u. elim (Bool-cases (is_export workflow_id e)) [
          | inl row ↦ rw row (λ same. refl)
          | inr other ↦ rw other (λ same. absurd (ground arith))
        ])
        (All-always (λ e. Unit {0}) es (λ e. tt))

  find_export-hidden :
      (es : List StoredExport) (id : String) (e : StoredExport)
      → (id == workflow_id) ≡ true
      → All IsHidden es
      → find_export id es ≡ some e
      → e.is_exported ≡ false
  unfolding find_export IsHidden
  find_export-hidden es id e same hidden found =
      let here = find_holds (λ x. x.workflow_id == id) es e found in
      All-find IsHidden (λ x. x.workflow_id == id) es e hidden found
        (ground
          (arith, eq_iff e.workflow_id id, eq_iff id workflow_id, eq_iff e.workflow_id workflow_id))

  -- What the query of the workflow finds: nothing, or an entity that is not exported.
  abbrev Finding : Bool → Option Resource → Type 0
  Finding there found =
      ((there ≡ false) × (found ≡ none))
      ⊎ ((w : WorkflowEntity) × (there ≡ true) × (found ≡ some (workflow w)) × (w.exported ≡ false))

  is_listed : (id : String) → mem_text id (workflow_id ∷ []) ≡ (id == workflow_id)
  is_listed id = ground (arith, eq_iff id workflow_id, eq_iff workflow_id id)

  workflow_entities-Finding :
      (t : Store) (ws : List StoredWorkflow) (es : List Resource)
      → All IsHidden t.exports
      → workflow_entities (map (workflow_row t) (keep (λ w. mem_text w.id (workflow_id ∷ [])) ws))
        ≡ some es
      → Finding (any (is_workflow workflow_id) ws) (find_resource (workflow_of workflow_id) es)
  unfolding workflow_row build_workflow_entity workflow_entities find_resource resource_ref ref_eq
  workflow_entities-Finding t [] es hidden h =
      inl (refl, ap (find_resource (workflow_of workflow_id)) (sym (some_inj [] es h)))
  workflow_entities-Finding t (w ∷ ws) es hidden h =
      elim (Bool-cases (mem_text w.id (workflow_id ∷ []))) [
        | inr other ↦
            (let unlike : (w.id == workflow_id) ≡ false = sym (is_listed w.id) ∙ other in
              rw unlike (workflow_entities-Finding t ws es hidden (rw other at h)))
        | inl here ↦
            (let like : (w.id == workflow_id) ≡ true = sym (is_listed w.id) ∙ here in
              let rows = map (workflow_row t) (keep (λ w. mem_text w.id (workflow_id ∷ [])) ws) in
              let (export, rest, known, same) =
                workflow_entities-head (workflow_row t w) rows es (rw here at h) in
              inr (
                build_workflow_entity (workflow_row t w) export,
                ground arith,
                ap (find_resource (workflow_of workflow_id)) same ∙ rw like refl,
                hidden_entity (find_export w.id t.exports) (workflow_row t w) export
                    (λ e found. find_export-hidden t.exports w.id e like hidden found) known,
              ))
      ]

  -- What the provider's slice holds of the workflow.
  slice_for-Finding :
      (is_uuid : String → Bool) (t : Store) (p : EntityRef) (slice : EntitySlice) (memo : Memo)
      → All IsHidden t.exports
      → slice_for (queries is_uuid t) [] p (workflow_of workflow_id ∷ []) ≡ some (slice, memo)
      → Finding
          (any (is_workflow workflow_id) t.workflows)
          (find_resource (workflow_of workflow_id) slice.resources)
  unfolding slice_for fetch_entities fetch_workflows fetch_teams wanted queries build_slice
  slice_for-Finding is_uuid t p slice memo hidden h =
      let (caps, known, h') =
        >>=-eq-some (capability_slice (queries is_uuid t) [] p.id) _ (slice, memo) h in
      let (es, fetched, h'') =
        >>=-eq-some (fetch_entities (queries is_uuid t) (workflow_of workflow_id ∷ [])) _
          (slice, memo) h' in
      let (ws, listed, f) =
        >>=-eq-some (fetch_workflows (queries is_uuid t) (workflow_id ∷ [])) _ es fetched in
      subst
        (λ (s : EntitySlice).
          Finding (any (is_workflow workflow_id) t.workflows)
            (find_resource (workflow_of workflow_id) s.resources))
        (ap (λ (x : EntitySlice × Memo). x.0) (some_inj _ (slice, memo) h''))
        (subst
          (λ es.
            Finding (any (is_workflow workflow_id) t.workflows)
              (find_resource (workflow_of workflow_id) es))
          (sym (append-nil ws) ∙ some_inj _ es f)
          (workflow_entities-Finding t t.workflows ws hidden listed))

  run_status-Finding :
      (slice : EntitySlice) (c : AuthzContext) (there : Bool) (found : Option Resource)
      → Finding there found
      → run_status slice c found ≡ (if there then some 403 else some 404)
  run_status-Finding slice c there found (inl (absent, e)) = rw (absent, e) refl
  run_status-Finding slice c there found (inr (w, present, e, hidden)) =
      rw (present, e, rule-hidden (member_of_slice slice) c w hidden) refl

  module _ {Token : Type 0} (is_authorized : Cedar) (cedar : IsCedar is_authorized)
      (jwt : Jwt Token) (settings : Settings) (is_uuid : String → Bool) (s : Store) (p : Principal)
      (token : Option Token) (time : ℕ) (st : RequestState) where
    -- Once a workflow has been unpublished, its public run is granted to nobody, with whatever token
    -- and credentials: it is answered 403 if the workflow exists and 404 if not. The roles of the
    -- tables are made of the code's capabilities, the references are plain, and `cedar` is the
    -- documented behaviour of the library.
    pub execution-unset :
        AreKnown s
        → IsPlain (principal_ref p)
        → IsPlain (workflow_of workflow_id)
        → error_status
            (execute_exported_workflow jwt is_authorized load_policies
              (queries is_uuid (unset_workflow_export workflow_id s).1)
              settings
              workflow_id
              token
              p
              time
              st).0
          ≡ (if any (is_workflow workflow_id) s.workflows then some 403 else some 404)
    unfolding AreKnown unset_workflow_export
    execution-unset known plain_p plain_r =
        let t = (unset_workflow_export workflow_id s).1 in
        let (slice, memo, fetched) =
          slice_for-known is_uuid t known (principal_ref p) (workflow_of workflow_id ∷ []) in
        execution-status is_authorized cedar jwt (queries is_uuid t) settings workflow_id token p
          time st slice memo fetched plain_p plain_r
        ∙ run_status-Finding slice (run_context jwt settings workflow_id token time st p)
            (any (is_workflow workflow_id) t.workflows)
            (find_resource (workflow_of workflow_id) slice.resources)
            (slice_for-Finding is_uuid t (principal_ref p) slice memo
              (unexported-IsHidden s.exports) fetched)
