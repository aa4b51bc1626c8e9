-- ===== src/Workflows/Judged.antt =====
-- The decisions about the fetched rows, against the access rules.
use stackai_authz_service.Prelude.{
  ◌≡◌, refl, ◌∙◌, ap, Bool, false, some, List, [], ◌∷◌, map, keep, All, arith, if◌then◌else◌,
}
use stackai_authz_service.Action
use stackai_authz_service.Entities.{WorkflowEntity, workflow, EntitySlice, find_resource}
use stackai_authz_service.Schema.{applies_to}
use stackai_authz_service.Decision.{
  Decision, allow, deny, engine_error, is_allowed, is_engine_error,
}
use stackai_authz_service.Cedar.{Cedar, IsCedar, IsPlain}
use stackai_authz_service.Policies.{load_policies}
use stackai_authz_service.Engine.{authorize, authorize_batch}
use stackai_authz_service.Rules.{rule}
use stackai_authz_service.Rules.Slices.{IsSlice, member_of_slice}
use stackai_authz_service.Provider.{Database, Memo, WorkflowRow, slice_for}
use stackai_authz_service.Provider.Fetched.{slice_for-IsSlice, slice_for-principal}
use stackai_authz_service.Principal.{Principal, principal_ref}
use stackai_authz_service.Errors.{ok, RequestState}
use stackai_authz_service.Deps.{build_context}
use stackai_authz_service.Deps.Outcomes.{engine-rule}
use stackai_authz_service.Prefilter.Exact.{workflow_ref}
use stackai_authz_service.Workflows.{allowed_rows, judge_rows}

allowed_rows-step :
    (row : WorkflowRow) (rows kept : List WorkflowRow) (d : Decision) (ds : List Decision)
    → is_engine_error d ≡ false
    → allowed_rows rows ds ≡ ok kept
    → allowed_rows (row ∷ rows) (d ∷ ds) ≡ ok (if is_allowed d then row ∷ kept else kept)
allowed_rows-step row rows kept (allow id) ds h k = rw k refl
allowed_rows-step row rows kept (deny id) ds h k = k
allowed_rows-step row rows kept (engine_error m) ds h k = ground arith

-- The slice holds every row, as the entity that `entity` makes of it.
abbrev pub Holds : EntitySlice → (WorkflowRow → WorkflowEntity) → List WorkflowRow → Type 0
Holds s entity rows =
    All
      (λ row.
        (find_resource (workflow_ref row) s.resources ≡ some (workflow (entity row)))
        × IsPlain (workflow_ref row))
      rows

module _ (is_authorized : Cedar) (cedar : IsCedar is_authorized) (p : Principal) (st : RequestState)
    (entity : WorkflowRow → WorkflowEntity) (s : EntitySlice) where
  -- Whether the rules let the caller see the row.
  abbrev pub visible : WorkflowRow → Bool
  visible row =
      rule (member_of_slice s) (build_context st p) Action.workflow_view (workflow (entity row))

  allowed_rows-visible :
      (rows : List WorkflowRow)
      → IsSlice s
      → s.principal.ref ≡ principal_ref p
      → IsPlain (principal_ref p)
      → Holds s entity rows
      → allowed_rows rows (
          authorize_batch is_authorized load_policies
            (principal_ref p)
            Action.workflow_view
            (map (λ row. workflow_ref row) rows)
            s
            (build_context st p))
        ≡ ok (keep visible rows)
  unfolding authorize_batch authorize applies_to
  allowed_rows-visible [] valid same plain_p h = refl
  allowed_rows-visible (row ∷ rows) valid same plain_p ((found, plain), hs) =
      let c = build_context st p in
      let (sound, seen) =
        engine-rule is_authorized cedar Action.workflow_view (workflow_ref row) s p "" st
          Action.workflow_view (workflow (entity row)) valid same found refl plain_p plain c in
      allowed_rows-step row rows (keep visible rows)
        (authorize is_authorized load_policies (principal_ref p) Action.workflow_view
          (workflow_ref row) s c)
        _ sound (allowed_rows-visible rows valid same plain_p hs)
      ∙ ap (λ (b : Bool). ok (if b then row ∷ keep visible rows else keep visible rows)) seen

  -- Where the provider returns a slice that holds every fetched row, the list endpoint keeps, in their
  -- order, exactly the rows that the rules let the caller see, and no decision fails. The references
  -- are plain, and `cedar` is the documented behaviour of the library.
  pub judge_rows-visible :
      (db : Database) (memo after : Memo) (rows : List WorkflowRow)
      → slice_for db memo (principal_ref p) (map (λ row. workflow_ref row) rows) ≡ some (s, after)
      → Holds s entity rows
      → IsPlain (principal_ref p)
      → judge_rows is_authorized load_policies db p st memo rows ≡ ok (keep visible rows, after)
  unfolding judge_rows
  judge_rows-visible db memo after rows fetched holds plain_p =
      let refs = map (λ (row : WorkflowRow). workflow_ref row) rows in
      let kept =
        allowed_rows-visible rows
          (slice_for-IsSlice db memo after (principal_ref p) refs s refl fetched)
          (slice_for-principal db memo after (principal_ref p) refs s fetched) plain_p holds in
      rw (fetched, judge_rows) (rw kept refl)
