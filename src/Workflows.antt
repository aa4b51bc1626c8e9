-- ===== src/Workflows.antt =====
-- `list_workflows` of src/app/api/routers/workflows.py: the pages of the list endpoint, filled after
-- authorization. The query is a parameter; the limit is a natural number.
pub mod Pages
pub mod Scans
pub mod Complete
pub mod Walk
pub mod Fetch
pub mod Shown
pub mod Stored
pub mod Judged
use stackai_authz_service.Prelude.{
  ℕ, zero, suc, ◌*◌, String, Bool, true, false, ◌&&◌, not, Option, none, some, List, [], ◌∷◌, ◌++◌,
  map, length, take, last, ltb, if◌then◌else◌, ◌==◌,
}
use stackai_authz_service.Action
use stackai_authz_service.Entities.{EntityRef}
use stackai_authz_service.Decision.{Decision, allow, deny, engine_error}
use stackai_authz_service.Cedar.{Cedar, Policy}
use stackai_authz_service.Engine.{authorize_batch}
use stackai_authz_service.Provider.{Database, Memo, WorkflowRow, capability_slice, slice_for}
use stackai_authz_service.Prefilter.{spec_is_empty, to_postgrest_or, build_workflow_prefilter}
use stackai_authz_service.Principal.{Principal, principal_ref}
use stackai_authz_service.Errors.{Result, ok, err, RequestState, authz_engine_error, crash}
use stackai_authz_service.Deps.{build_context, requires_authenticated}

abbrev pub overfetch_factor : ℕ
overfetch_factor = 3

abbrev pub max_refill_rounds : ℕ
max_refill_rounds = 5

pub record WorkflowPage : Type 0 where
  pub items : List WorkflowRow
  pub next_cursor : Option String

-- The variables of the loop, with the memo of the provider.
pub record Scan (M : Type 0) : Type 0 where
  pub survivors : List WorkflowRow
  pub fetch_cursor : Option String
  pub last_fetched_id : Option String
  pub exhausted : Bool
  pub memo : M

-- The cursor that is applied: the empty text is as good as none.
abbrev pub applied : Option String → Option String
applied none = none
applied (some c) = if c == "" then none else some c

module _ {M : Type 0} (query : Option String → ℕ → List WorkflowRow)
    (judge : M → List WorkflowRow → Result (List WorkflowRow × M)) (limit : ℕ) where
  -- The body of the loop: `judge` tells which of the fetched rows are allowed.
  unfoldable pub refill : Scan M → Result (Scan M)
  refill s =
      let rows = query (applied s.fetch_cursor) (limit * overfetch_factor) in
      elim (last rows) [
        | none ↦ ok (record s { exhausted = true })
        | some final ↦ elim (judge s.memo rows) [
          | err e ↦ err e
          | ok (allowed, memo) ↦ ok (record {
            survivors = s.survivors ++ allowed;
            fetch_cursor = some final.id;
            last_fetched_id = some final.id;
            exhausted = ltb (length rows) (limit * overfetch_factor);
            memo = memo;
          })
        ]
      ]

  -- The loop, with the number of rounds that are left.
  unfoldable pub scan : ℕ → Scan M → Result (Scan M)
  unfolding refill
  scan zero s = ok s
  scan (suc rounds) s =
      if ltb (length s.survivors) limit && not s.exhausted
      then elim (refill s) [ err e ↦ err e | ok next ↦ scan rounds next ]
      else ok s

  -- What follows the loop; `page[-1]` of an empty page raises.
  unfoldable pub page_of : Scan M → Result WorkflowPage
  page_of s =
      let page = take limit s.survivors in
      if ltb limit (length s.survivors)
      then elim (last page) [
        | none ↦ err crash
        | some row ↦ ok (record { items = page; next_cursor = some row.id })
      ]
      else ok
          (record { items = page; next_cursor = if s.exhausted then none else s.last_fetched_id })

  -- From the loop's variables on.
  unfoldable pub fill_page : M → Option String → Result WorkflowPage
  unfolding scan page_of
  fill_page memo cursor =
      elim (scan max_refill_rounds (record {
        survivors = [];
        fetch_cursor = cursor;
        last_fetched_id = none;
        exhausted = false;
        memo = memo;
      })) [ err e ↦ err e | ok s ↦ page_of s ]

-- The first engine error of the decisions, or the rows whose decision allows them.
abbrev pub allowed_rows : List WorkflowRow → List Decision → Result (List WorkflowRow)
allowed_rows [] ds = ok []
allowed_rows (row ∷ rows) [] = err crash
allowed_rows (row ∷ rows) (engine_error message ∷ ds) = err (authz_engine_error message)
allowed_rows (row ∷ rows) (deny id ∷ ds) = allowed_rows rows ds
allowed_rows (row ∷ rows) (allow id ∷ ds) = elim (allowed_rows rows ds) [
  | err e ↦ err e
  | ok kept ↦ ok (row ∷ kept)
]

module _ (is_authorized : Cedar) (policies : List Policy) (db : Database) where
  -- The slice of the fetched rows and one decision for each.
  unfoldable pub judge_rows :
      Principal → RequestState → Memo → List WorkflowRow → Result (List WorkflowRow × Memo)
  unfolding authorize_batch slice_for build_context
  judge_rows p s memo rows =
      let refs = map (λ (row : WorkflowRow). record { kind = "Workflow"; id = row.id }) rows in
      elim (slice_for db memo (principal_ref p) refs) [
        | none ↦ err crash
        | some (slice, after) ↦
            elim (allowed_rows rows (
              authorize_batch is_authorized policies (principal_ref p) Action.workflow_view refs
                slice (build_context s p))) [ err e ↦ err e | ok kept ↦ ok (kept, after) ]
      ]

  -- `list_workflows`. `query` takes the text of the filter, a cursor and a limit.
  unfoldable pub list_workflows :
      (String → Option String → ℕ → List WorkflowRow)
      → Principal
      → RequestState
      → ℕ
      → Option String
      → Result WorkflowPage
  unfolding requires_authenticated capability_slice build_workflow_prefilter spec_is_empty
      to_postgrest_or judge_rows fill_page
  list_workflows query p s limit cursor = elim (requires_authenticated p) [
    | err e ↦ err e
    | ok u ↦ elim (capability_slice db [] p.subject) [
      | none ↦ err crash
      | some (caps, memo) ↦
          let spec = build_workflow_prefilter caps in
          if spec_is_empty spec
          then ok (record { items = []; next_cursor = none })
          else fill_page (query (to_postgrest_or spec)) (judge_rows p s) limit memo cursor
    ]
  ]
