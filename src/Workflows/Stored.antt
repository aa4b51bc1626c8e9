-- ===== src/Workflows/Stored.antt =====
-- The list endpoint on the tables: the provider's queries and the rows that pass the filter.
use stackai_authz_service.Prelude.{
  ℕ, suc, ◌<◌, String, Bool, true, false, ◌≡◌, refl, sym, ◌∙◌, ap, subst, not, ◌||◌, Option, none,
  some, List, [], ◌∷◌, ◌++◌, length, keep, find, any, All, All-find, Bool-cases, inl, inr, ◌==◌,
  fun_ext,
}
use stackai_authz_service.Action
use stackai_authz_service.Entities.{Resource, workflow}
use stackai_authz_service.Cedar.{Cedar, IsCedar, IsPlain}
use stackai_authz_service.Policies.{load_policies}
use stackai_authz_service.Rules.{rule}
use stackai_authz_service.Rules.Slices.{member_of_slice}
use stackai_authz_service.Provider.{
  CapabilitySlice, WorkflowRow, Memo, capability_slice, build_slice,
}
use stackai_authz_service.Provider.Noted.{capability_slice-noted, capability_slice-again}
use stackai_authz_service.Principal.{Principal, principal_ref, is_anonymous}
use stackai_authz_service.Errors.{Result, ok, RequestState}
use stackai_authz_service.Deps.{build_context, requires_authenticated}
use stackai_authz_service.Prefilter.{
  PrefilterSpec, spec_is_empty, matches, to_postgrest_or, build_workflow_prefilter,
}
use stackai_authz_service.Prefilter.Text.{
  AllPlain, conditions, conditions-AreReadable, to_postgrest_or-conditions, passes_or-conditions,
}
use stackai_authz_service.Store.{StoredWorkflow, Store}
use stackai_authz_service.Store.Queries.{queries, workflow_row}
use stackai_authz_service.Workflows.{judge_rows, list_workflows, fill_page, WorkflowPage}
use stackai_authz_service.Workflows.Scans.{IsListing}
use stackai_authz_service.Workflows.Judged.{judge_rows-visible}
use stackai_authz_service.Workflows.Walk.{walk, walk_end, walk_complete}
use stackai_authz_service.Workflows.Shown.{
  IsQueried, matches_empty, passes, shows, any-shown, shows-filtered,
}
use stackai_authz_service.Workflows.Fetch.{entity, IsStored, slice_for-rows}

All-middle :
    (P : WorkflowRow → Type 0) (front rows back : List WorkflowRow)
    → All P (front ++ (rows ++ back))
    → All P rows
All-middle P (x ∷ front) rows back (h, hs) = All-middle P front rows back hs
All-middle P [] [] back h = tt
All-middle P [] (x ∷ rows) back (h, hs) = (h, All-middle P [] rows back hs)

module _ (is_authorized : Cedar) (cedar : IsCedar is_authorized) (is_uuid : String → Bool)
    (s : Store) (later : String → String → Bool)
    (query : String → Option String → ℕ → List WorkflowRow) (p : Principal) (st : RequestState)
    (limit : ℕ) (caps : CapabilitySlice) (memo : Memo) where
  abbrev HasCaps : Memo → Type 0
  HasCaps m = capability_slice (queries is_uuid s) m p.subject ≡ some (caps, m)

  judge_rows-stored :
      (m : Memo) (rows : List WorkflowRow)
      → IsPlain (principal_ref p)
      → HasCaps m
      → All (IsStored s) rows
      → judge_rows is_authorized load_policies (queries is_uuid s) p st m rows
        ≡ ok (keep (λ row. shows s p st caps row) rows, m)
  unfolding member_of_slice build_slice
  judge_rows-stored m rows plain known stored =
      let (es, fetched, holds) = slice_for-rows is_uuid s p caps m rows known stored in
      judge_rows-visible is_authorized cedar p st (λ row. entity row)
        (build_slice (principal_ref p) caps es) (queries is_uuid s) m m rows fetched holds plain

  listing :
      (spec : PrefilterSpec) (table : List WorkflowRow)
      → IsPlain (principal_ref p)
      → IsQueried later query s (to_postgrest_or spec) table
      → IsListing later
          (query (to_postgrest_or spec))
          (judge_rows is_authorized load_policies (queries is_uuid s) p st)
          (λ m. HasCaps m)
          (λ row. shows s p st caps row)
          table
          []
          table
  listing spec table plain queried = record {
    ordered = queried.ordered;
    split = refl;
    queried = queried.queried;
    judged = λ m front rows back known split. (
      m,
      judge_rows-stored m rows plain known
          (All-middle (IsStored s) front rows back (subst (All (IsStored s)) split queried.stored)),
      known,
    );
  }

  abbrev page_at : Option String → Result WorkflowPage
  page_at cursor =
      list_workflows is_authorized load_policies (queries is_uuid s) query p st limit cursor

  abbrev judge : Memo → List WorkflowRow → Result (List WorkflowRow × Memo)
  judge = judge_rows is_authorized load_policies (queries is_uuid s) p st

  list_workflows-empty :
      (cursor : Option String)
      → is_anonymous p ≡ false
      → capability_slice (queries is_uuid s) [] p.subject ≡ some (caps, memo)
      → spec_is_empty (build_workflow_prefilter caps) ≡ true
      → page_at cursor ≡ ok (record { items = []; next_cursor = none })
  unfolding list_workflows requires_authenticated
  list_workflows-empty cursor named known empty =
      rw (named, list_workflows) (rw (known, list_workflows) (rw empty refl))

  list_workflows-filled :
      (cursor : Option String)
      → is_anonymous p ≡ false
      → capability_slice (queries is_uuid s) [] p.subject ≡ some (caps, memo)
      → spec_is_empty (build_workflow_prefilter caps) ≡ false
      → page_at cursor
        ≡ fill_page
            (query (to_postgrest_or (build_workflow_prefilter caps)))
            judge
            limit
            memo
            cursor
  unfolding list_workflows requires_authenticated
  list_workflows-filled cursor named known some_filter =
      rw (named, list_workflows) (rw (known, list_workflows) (rw some_filter refl))

  -- On the tables, where the query answers to the text of the filter as PostgREST documents (the
  -- rows whose named column has one of the listed values), for a caller that is not anonymous and
  -- has the given capabilities, with a positive limit: a client that follows the cursors comes to an
  -- end, after at most one more request than there are rows that pass the filter, and what it has
  -- been shown has a stored workflow exactly if the rules let the caller see it, on the slice that
  -- the provider builds for the caller over whatever entities. The ids in the table are distinct and
  -- not empty, the references are plain, the ids of the filter have no comma, bracket or quote, and
  -- `cedar` is the documented behaviour of the library.
  pub list_workflows-shows :
      (table : List WorkflowRow) (w : StoredWorkflow) (es : List Resource)
      → is_anonymous p ≡ false
      → capability_slice (queries is_uuid s) [] p.subject ≡ some (caps, memo)
      → IsQueried later query s (to_postgrest_or (build_workflow_prefilter caps)) table
      → AllPlain (build_workflow_prefilter caps).team_ids
      → AllPlain (build_workflow_prefilter caps).org_ids
      → find (λ x. x.id == w.id) s.workflows ≡ some w
      → 0 < limit
      → IsPlain (principal_ref p)
      → (shown : List WorkflowRow) × (walk
            (list_workflows is_authorized load_policies (queries is_uuid s) query p st limit)
            (suc (length table))
            none
          ≡ some shown)
        × (any (λ row. row.id == w.id) shown
            ≡ rule
                (member_of_slice (build_slice (principal_ref p) caps es))
                (build_context st p)
                Action.workflow_view
                (workflow (entity (workflow_row s w))))
  unfolding member_of_slice build_slice
  list_workflows-shows table w es named known queried plain_teams plain_orgs found some_limit
        plain =
      let spec = build_workflow_prefilter caps in
      let kept =
        subst (λ b. (not b || any (λ row. row.id == w.id) table) ≡ true)
          (passes_or-conditions spec s w)
          (All-find _ (λ x. x.id == w.id) s.workflows w
            (queried.complete (conditions spec) (conditions-AreReadable spec plain_teams plain_orgs)
              (to_postgrest_or-conditions spec))
            found) in
      elim (Bool-cases (spec_is_empty spec)) [
        | inl empty ↦ (
          [],
          walk_end (λ c. page_at c) (length table) none (record { items = []; next_cursor = none })
              (list_workflows-empty none named known empty) refl,
          sym (shows-filtered s p st caps w (matches_empty spec _ empty)),
        )
        | inr some_filter ↦
            (let full =
                walk_complete later (query (to_postgrest_or spec)) judge (λ m. HasCaps m)
                  (λ row. shows s p st caps row) table limit memo (listing spec table plain queried)
                  some_limit
                  (capability_slice-again (queries is_uuid s) p.subject caps memo
                    (capability_slice-noted (queries is_uuid s) p.subject caps memo known)) in
              let filled =
                fun_ext (λ (c : Option String). list_workflows-filled c named known some_filter) in
              (
                keep (λ row. shows s p st caps row) table,
                ap (λ f. walk f (suc (length table)) none) filled ∙ full,
                any-shown s p st caps w table found queried.stored
                    ∙ passes (matches spec (entity (workflow_row s w)))
                        (any (λ row. row.id == w.id) table) (shows s p st caps (workflow_row s w))
                        kept (shows-filtered s p st caps w),
              ))
      ]
