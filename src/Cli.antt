-- ===== src/Cli.antt =====
-- src/app/cli.py: one decision from the command line. argparse is not modelled: `main` takes the parsed
-- arguments. `modules` are the names in `sys.modules`. `none` is the exception on a text that is no
-- action.
pub mod Exits
use stackai_authz_service.Prelude.{
  ℕ, String, Bool, true, false, ◌&&◌, Option, none, some, List, [], ◌∷◌, ◌++◌, keep, lacks, sorted,
  if◌then◌else◌, ◌==◌,
}
use stackai_authz_service.Action.{Action, action_value, all_actions}
use stackai_authz_service.Entities.{EntityRef, EntitySlice, Resource, resource_ref}
use stackai_authz_service.Decision.{Decision, allow, deny, engine_error, is_allowed, policy_id}
use stackai_authz_service.Cedar.{Cedar, Policy}
use stackai_authz_service.Engine.{AuthzContext, authorize, join}
use stackai_authz_service.Fixtures.{team_ref, build_slice}

pub record Arguments : Type 0 where
  pub role : String
  pub action : String
  pub auth_method : String
  pub exported : Bool
  pub show_imports : Bool

-- `Action(text)`
unfoldable pub action_of : String → List Action → Option Action
unfolding action_value
action_of text [] = none
action_of text (a ∷ actions) =
    let rest = action_of text actions in if action_value a == text then some a else rest

-- `AuthzContext(auth_method=...)`, with the defaults of its other fields
abbrev pub context_of : String → AuthzContext
context_of auth_method = record {
  auth_method = auth_method;
  password_verified = false;
  api_key_scopes = [];
  api_key_org_id = none;
}

-- The text of an optional policy id.
abbrev pub shown_id : Option String → String
shown_id none = "None"
shown_id (some id) = id

abbrev pub verdict : Bool → String
verdict allowed = if allowed then "ALLOW" else "DENY"

abbrev pub verdict_line : Arguments → Bool → Option String → String
verdict_line args allowed id =
    join ""
      (verdict allowed ∷ "  " ∷ args.role ∷ " -> " ∷ args.action ∷ "   policy=" ∷ shown_id id ∷ [])

-- The printed line and the exit code.
unfoldable pub report : Arguments → Decision → String × ℕ
unfolding join
report args (engine_error message) = (join "" ("ERROR  " ∷ message ∷ []), 2)
report args (allow id) = (verdict_line args true id, 0)
report args (deny id) = (verdict_line args false id, 1)

unfoldable pub import_lines : Bool → List String → List String
unfolding join sorted lacks
import_lines show_imports modules =
    if show_imports then join "\n" (sorted (keep (λ m. lacks b'.' m) modules)) ∷ [] else []

abbrev first_ref : List Resource → Option EntityRef
first_ref [] = none
first_ref (e ∷ es) = some (resource_ref e)

-- `main`: the printed lines and the exit code.
unfoldable pub main : Cedar → List Policy → List String → Arguments → Option (List String × ℕ)
unfolding build_slice resource_ref
main is_authorized policies modules args =
    let fixture = build_slice args.role args.exported "public" false true team_ref in
    elim (first_ref fixture.1.resources) [
      | none ↦ none
      | some resource ↦ elim (action_of args.action all_actions) [
        | none ↦ none
        | some action ↦
            let answer = report args (
              authorize is_authorized policies fixture.0 action resource fixture.1
                (context_of args.auth_method)) in
            some (import_lines args.show_imports modules ++ (answer.0 ∷ []), answer.1)
      ]
    ]
