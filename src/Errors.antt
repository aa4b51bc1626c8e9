-- ===== src/Errors.antt =====
-- packages/authz-core/src/authz_core/errors.py, src/app/api/errors.py and the exceptions of
-- src/app/auth/base.py and src/app/invariants/base.py: what a request may raise, and the
-- problem+json response of each handler.
use stackai_authz_service.Prelude.{
  ℕ, String, Bool, false, Option, none, some, List, [], ◌∷◌, if◌then◌else◌, cat,
}
use stackai_authz_service.Action.{Action}
use stackai_authz_service.Audit.{AuditRow}

-- The exceptions. `crash` is any exception without a handler.
pub data Raised : Type 0 where
  authz_denied : Option String → (action resource : String) → Raised
  resource_not_visible : String → Raised
  authz_engine_error : String → Raised
  authentication_failed : (scheme reason : String) → Raised
  invariant_violation : (name message : String) → Raised
  request_validation_error : Raised
  rate_limited : (retry_after : ℕ) → Raised
  role_not_found : String → Raised
  unknown_capability : List String → Raised
  unknown_api_key_scope : List String → Raised
  crash : Raised

pub data Result {ℓ} (A : Type ℓ) : Type ℓ where
  ok : A → Result A
  err : Raised → Result A

-- `request.state`, and the container of background tasks. `audit_tasks` tells whether the container
-- has been stashed; the state then refers to the same container, so later tasks are in it too.
pub record RequestState : Type 0 where
  pub correlation_id : Option String
  pub audit_tasks : Bool
  pub background_tasks : List AuditRow
  pub password_verified : Option Bool
  pub authz_policy_id : Option (Option String)
  pub authz_action : Option Action

abbrev pub fresh_state : RequestState
fresh_state = record {
  correlation_id = none;
  audit_tasks = false;
  background_tasks = [];
  password_verified = none;
  authz_policy_id = none;
  authz_action = none;
}

pub record Response : Type 0 where
  pub status : ℕ
  pub title : String
  pub detail : String
  pub correlation_id : String
  pub headers : List (String × String)
  pub background : List AuditRow

-- `problem_response`; the type URI and the extra members are left out.
abbrev problem_response : ℕ → String → String → String → Response
problem_response status title detail cid = record {
  status = status;
  title = title;
  detail = detail;
  correlation_id = cid;
  headers = [];
  background = [];
}

-- `_carry_audit_tasks`
unfoldable pub carry_audit_tasks : RequestState → Response → Response
carry_audit_tasks s r = if s.audit_tasks then record r { background = s.background_tasks } else r

-- `getattr(request.state, "correlation_id", None) or str(uuid.uuid4())`
abbrev or_fresh : Option String → String → String
or_fresh none fresh = fresh
or_fresh (some cid) fresh = cid

-- The handlers of `install_error_handlers`; `none` is an exception without a handler. `fresh` is the
-- uuid that a handler mints, `show` the text of the numbers and of the lists that messages name.
module _ (fresh : String) (show_seconds : ℕ → String) (show_names : List String → String) where
  unfoldable pub handle : RequestState → Raised → Option Response
  unfolding carry_audit_tasks
  handle s (authz_denied policy_id action resource) = some (
      carry_audit_tasks s (
        problem_response 403 "Forbidden" "You do not have permission to perform this action."
          (or_fresh s.correlation_id fresh)))
  handle s (resource_not_visible resource) = some (
      carry_audit_tasks s
        (problem_response 404 "Not Found" "Resource not found." (or_fresh s.correlation_id fresh)))
  handle s (authz_engine_error message) = some (
      carry_audit_tasks s (
        problem_response 500 "Internal Server Error"
          "The authorization engine could not evaluate this request."
          (or_fresh s.correlation_id fresh)))
  handle s (invariant_violation name message) = some (problem_response 409 "Conflict" message fresh)
  handle s (authentication_failed scheme reason) =
      some (record (problem_response 401 "Unauthorized" "Valid credentials are required." fresh) {
        headers = ("WWW-Authenticate", scheme) ∷ [];
      })
  handle s request_validation_error =
      some (problem_response 422 "Unprocessable Entity" "Request validation failed." fresh)
  handle s (rate_limited retry_after) =
      some
        (record (problem_response 429 "Too Many Requests"
          "Too many password attempts for this workflow. Try again later." fresh) {
            headers = ("Retry-After", show_seconds retry_after) ∷ [];
          })
  handle s (role_not_found role) =
      some (problem_response 422 "Unprocessable Entity" (cat "Unknown role: " role) fresh)
  handle s (unknown_capability names) = some (
      problem_response 422 "Unprocessable Entity"
        (cat "Unknown capability(ies): " (show_names names)) fresh)
  handle s (unknown_api_key_scope names) = some (
      problem_response 422 "Unprocessable Entity" (cat "Unknown scope(s): " (show_names names))
        fresh)
  handle s crash = none

-- The status of the response to an exception; one without a handler becomes a 500.
unfoldable pub status_of : Raised → ℕ
unfolding handle
status_of e = elim (handle "" (λ n. "") (λ ns. "") fresh_state e) [ none ↦ 500 | some r ↦ r.status ]

-- The status of a failed dependency; `none` lets the handler run.
unfoldable pub error_status {ℓ} : {A : Type ℓ} → Result A → Option ℕ
unfolding status_of
error_status (ok a) = none
error_status (err e) = some (status_of e)
