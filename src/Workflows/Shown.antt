-- ===== src/Workflows/Shown.antt =====
-- The rows that the list endpoint is to show on the tables, and what its query answers.
use stackai_authz_service.Prelude.{
  ℕ, String, Bool, true, false, ◌≡◌, refl, sym, ◌∙◌, ap, not, ◌&&◌, ◌||◌, Option, some, List, [],
  ◌∷◌, take, keep, find, any, All, arith, is_empty, mem_text, Bool-cases, inl, inr, eq_iff, ◌==◌,
  some_inj,
}
use stackai_authz_service.Action
use stackai_authz_service.Entities.{WorkflowEntity, workflow}
use stackai_authz_service.Rules.{rule, key_permits}
use stackai_authz_service.Rules.Slices.{member_of_slice}
use stackai_authz_service.Provider.{CapabilitySlice, WorkflowRow, build_slice}
use stackai_authz_service.Principal.{Principal, principal_ref}
use stackai_authz_service.Errors.{RequestState}
use stackai_authz_service.Deps.{build_context}
use stackai_authz_service.Prefilter.{
  PrefilterSpec, spec_is_empty, matches, build_workflow_prefilter,
}
use stackai_authz_service.Prefilter.Text.{InClause, AreReadable, or_text, passes_or}
use stackai_authz_service.Prefilter.Exact.{rule-matches}
use stackai_authz_service.Store.{StoredWorkflow, Store}
use stackai_authz_service.Store.Queries.{workflow_row}
use stackai_authz_service.Workflows.Pages.{IsOrdered, after}
use stackai_authz_service.Workflows.Fetch.{entity, IsStored}

-- What PostgREST answers to the query with the filter `or=(text)`: `table` has the stored rows that pass
-- the conditions that the text stands for, in the order of their ids, and the query takes the first of
-- them behind the cursor.
pub record IsQueried (later : String → String → Bool)
    (query : String → Option String → ℕ → List WorkflowRow) (s : Store) (text : String)
    (table : List WorkflowRow) : Type 0 where
  pub ordered : IsOrdered later table
  pub stored : All (IsStored s) table
  pub complete :
      (cs : List InClause)
      → AreReadable cs
      → or_text cs ≡ text
      → All
          (λ (w : StoredWorkflow).
            (not (passes_or cs w) || any (λ row. row.id == w.id) table) ≡ true)
          s.workflows
  pub queried : (c : Option String) (n : ℕ) → query text c n ≡ take n (after later c table)

not_listed : (i : String) (ids : List String) → is_empty ids ≡ true → mem_text i ids ≡ false
not_listed i [] h = refl
not_listed i (x ∷ ids) h = absurd (cc)

-- An empty filter lets nothing through.
pub matches_empty :
    (spec : PrefilterSpec) (w : WorkflowEntity) → spec_is_empty spec ≡ true → matches spec w ≡ false
unfolding spec_is_empty matches
matches_empty spec w h =
    let no_team = not_listed w.team.id spec.team_ids (ground arith) in
    let no_org = not_listed w.org.id spec.org_ids (ground arith) in rw (no_team, no_org) refl

-- What the filter lets through is in the table, and what is shown passes the filter.
pub passes :
    (filtered listed shown : Bool)
    → (not filtered || listed) ≡ true
    → (filtered ≡ false → shown ≡ false)
    → (listed && shown) ≡ shown
passes true true shown h k = refl
passes true false shown h k = absurd (cc)
passes false listed shown h k = rw (k refl) (ground arith)

module _ (s : Store) (p : Principal) (st : RequestState) (caps : CapabilitySlice) where
  -- Whether the rules let the caller see the row.
  abbrev pub shows : WorkflowRow → Bool
  shows row =
      rule (member_of_slice (build_slice (principal_ref p) caps [])) (build_context st p)
        Action.workflow_view (workflow (entity row))

  -- Of the stored rows of a table, those that are shown have the row of a workflow exactly if the
  -- table has it and it is to be shown.
  pub any-shown :
      (w : StoredWorkflow) (table : List WorkflowRow)
      → find (λ x. x.id == w.id) s.workflows ≡ some w
      → All (IsStored s) table
      → any (λ row. row.id == w.id) (keep (λ row. shows row) table)
        ≡ (any (λ row. row.id == w.id) table && shows (workflow_row s w))
  any-shown w [] found stored = refl
  any-shown w (row ∷ table) found ((v, listed, same, plain), stored) =
      let rest = any-shown w table found stored in
      elim (Bool-cases (row.id == w.id)) [
        | inr other ↦ ground (arith, rest)
        | inl here ↦
            (let ids : row.id ≡ w.id = ground (arith, eq_iff row.id w.id) in
              let one : v ≡ w =
                some_inj v w
                  (sym listed ∙ ap (λ i. find (λ x. x.id == i) s.workflows) ids ∙ found) in
              let it : workflow_row s w ≡ row = ap (workflow_row s) (sym one) ∙ same in
              let same_shows : shows (workflow_row s w) ≡ shows row = ap (λ r. shows r) it in
              ground (arith, rest, same_shows))
      ]

  -- What the filter leaves out is not to be shown.
  pub shows-filtered :
      (w : StoredWorkflow)
      → matches (build_workflow_prefilter caps) (entity (workflow_row s w)) ≡ false
      → shows (workflow_row s w) ≡ false
  shows-filtered w out =
      rule-matches (principal_ref p) caps [] (build_context st p) (workflow_row s w) _ refl
      ∙ ap
          (λ b.
            b
            && key_permits (build_context st p) Action.workflow_view
                (workflow (entity (workflow_row s w))))
          out
