-- ===== src/Publishing.antt =====
-- src/app/api/routers/workflows.py: the handlers of single workflows and of their publication, behind
-- their guards. The bodies that repeat the row are left out.
pub mod Password
pub mod Hidden
use stackai_authz_service.Prelude.{
  ℕ, String, Bool, true, false, not, Option, none, some, [], ◌∷◌, ◌++◌, map, any, find, keep,
  mem_text, ◌||◌, if◌then◌else◌, ◌==◌,
}
use stackai_authz_service.Errors.{Result, ok, err, crash}
use stackai_authz_service.ApiKeys.{Hasher}
use stackai_authz_service.Store.{StoredWorkflow, StoredExport, Store}
use stackai_authz_service.Memberships.{team_org_id, after_ok}

-- `create_workflow`, for the caller `subject`; `id` is the one that the database gives. The key of
-- `created_by` wants a profile.
unfoldable pub create_workflow :
    String → String → String → String → Store → Result (Unit {0}) × Store
unfolding team_org_id
create_workflow team_id name subject id s = after_ok (team_org_id s team_id) s (λ org_id.
    if any (λ (w : StoredWorkflow). w.id == id) s.workflows || not (mem_text subject s.profiles)
    then (err crash, s)
    else (
      ok tt,
      record s {
        workflows =
            s.workflows
            ++ (record { id = id; org_id = org_id; team_id = team_id; name = name } ∷ []);
      },
    ))

abbrev pub is_workflow : String → StoredWorkflow → Bool
is_workflow workflow_id w = w.id == workflow_id

-- `get_workflow`; `.single()` raises on a missing row.
unfoldable pub get_workflow : String → Store → Result StoredWorkflow
get_workflow workflow_id s = elim (find (is_workflow workflow_id) s.workflows) [
  | none ↦ err crash
  | some w ↦ ok w
]

abbrev pub rename : String → String → StoredWorkflow → StoredWorkflow
rename workflow_id name w = if is_workflow workflow_id w then record w { name = name } else w

-- `update_workflow`; `.data[0]` of no row raises.
unfoldable pub update_workflow : String → String → Store → Result (Unit {0}) × Store
update_workflow workflow_id name s =
    if any (is_workflow workflow_id) s.workflows
    then (ok tt, record s { workflows = map (rename workflow_id name) s.workflows })
    else (err crash, s)

abbrev pub is_export : String → StoredExport → Bool
is_export workflow_id e = e.workflow_id == workflow_id

-- `delete_workflow`, with the export row that references it on delete cascade
unfoldable pub delete_workflow : String → Store → Result (Unit {0}) × Store
delete_workflow workflow_id s = (
  ok tt,
  record s {
    workflows = keep (λ w. not (is_workflow workflow_id w)) s.workflows;
    exports = keep (λ e. not (is_export workflow_id e)) s.exports;
  },
)

abbrev pub change : String → (StoredExport → StoredExport) → StoredExport → StoredExport
change workflow_id f e = if is_export workflow_id e then f e else e

-- `upsert` of a row of `workflow_exports`: `f` sets the columns that are sent, on the row that is there
-- or on the defaults of the table.
unfoldable pub upsert_export :
    String → (StoredExport → StoredExport) → Store → Result (Unit {0}) × Store
upsert_export workflow_id f s =
    if any (is_export workflow_id) s.exports
    then (ok tt, record s { exports = map (change workflow_id f) s.exports })
    else if any (is_workflow workflow_id) s.workflows
    then (
      ok tt,
      record s {
        exports =
            s.exports
            ++ (f (record {
              workflow_id = workflow_id;
              is_exported = false;
              visibility = "public";
              password_hash = none;
            })
                ∷ []);
      },
    )
    else (err crash, s)

abbrev pub exported_as : String → StoredExport → StoredExport
exported_as visibility e = record e { is_exported = true; visibility = visibility }

-- `set_workflow_export`
unfoldable pub set_workflow_export : String → String → Store → Result (Unit {0}) × Store
unfolding upsert_export
set_workflow_export workflow_id visibility s = upsert_export workflow_id (exported_as visibility) s

abbrev pub unexported : StoredExport → StoredExport
unexported e = record e { is_exported = false }

-- `unset_workflow_export`
unfoldable pub unset_workflow_export : String → Store → Result (Unit {0}) × Store
unset_workflow_export workflow_id s =
    (ok tt, record s { exports = map (change workflow_id unexported) s.exports })

abbrev pub protected_by : Option String → StoredExport → StoredExport
protected_by password_hash e = record e { password_hash = password_hash }

abbrev hash_of : Hasher → String → Option String → Option String
hash_of hasher salt none = none
hash_of hasher salt (some password) = some (hasher.hash salt password)

-- `set_workflow_export_protection`; `salt` is random.
unfoldable pub set_workflow_export_protection :
    Hasher → String → Option String → String → Store → Result (Unit {0}) × Store
unfolding upsert_export
set_workflow_export_protection hasher workflow_id password salt s =
    upsert_export workflow_id (protected_by (hash_of hasher salt password)) s

pub record WorkflowExecutionRead : Type 0 where
  pub id : String
  pub workflow_id : String
  pub status : String
  pub started_at : ℕ

-- `run_workflow`: a canned record with a random id and the time.
unfoldable pub run_workflow : String → (id : String) (now : ℕ) → WorkflowExecutionRead
run_workflow workflow_id id now = record {
  id = id;
  workflow_id = workflow_id;
  status = "queued";
  started_at = now;
}
