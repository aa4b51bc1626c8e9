-- ===== src/Violations.antt =====
-- src/app/invariants/sqlstate.py: the errors of the database that are violations of an invariant.
use stackai_authz_service.Prelude.{
  String, Option, none, some, List, [], ◌∷◌, lookup, if◌then◌else◌, ◌==◌,
}
use stackai_authz_service.Errors.{Raised, Result, ok, err, invariant_violation, crash}
use stackai_authz_service.Store.{Store, Outcome, done, api_error}

-- `INVARIANT_BY_SQLSTATE`
abbrev pub invariant_by_sqlstate : List (String × String)
invariant_by_sqlstate =
    ("ZA001", "LastSuperAdmin")
    ∷ ("ZA002", "LastTeamAdmin")
    ∷ ("ZA003", "DefaultTeamProtected")
    ∷ ("ZA004", "RoleInUse")
    ∷ []

abbrev violation : Option String → String → Raised
violation none message = crash
violation (some name) message = invariant_violation name message

-- `raise_for_postgrest_error`; an error that is passed through has no handler.
unfoldable pub raise_for_postgrest_error : String → String → Raised
raise_for_postgrest_error code message =
    violation (if code == "" then none else lookup code invariant_by_sqlstate) message

-- A call inside `try ... except APIError`, and one outside.
unfoldable pub call : Store → Outcome Store → Result (Unit {0}) × Store
unfolding raise_for_postgrest_error
call s (done t) = (ok tt, t)
call s (api_error code message) = (err (raise_for_postgrest_error code message), s)

unfoldable pub call_bare : Store → Outcome Store → Result (Unit {0}) × Store
call_bare s (done t) = (ok tt, t)
call_bare s (api_error code message) = (err crash, s)
