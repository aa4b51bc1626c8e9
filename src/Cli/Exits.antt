-- ===== src/Cli/Exits.antt =====
-- The exit code of the command line, against the roles of the fixtures.
use stackai_authz_service.Prelude.{
  String, ◌≡◌, refl, sym, ◌∙◌, ap, Bool, true, false, ◌&&◌, not, Option, some, List, [], ◌∷◌, ◌++◌,
  if◌then◌else◌, arith, ◌==◌,
}
use stackai_authz_service.Action.{Action, action_value, all_actions}
use stackai_authz_service.Entities.{resource_ref}
use stackai_authz_service.Schema.{applies_to}
use stackai_authz_service.Decision.{
  Decision, allow, deny, engine_error, is_allowed, is_engine_error, policy_id,
}
use stackai_authz_service.Cedar.{Cedar, IsCedar, IsPlain}
use stackai_authz_service.Policies.{load_policies}
use stackai_authz_service.Engine.{authorize}
use stackai_authz_service.Rules.{need, key_permits}
use stackai_authz_service.Fixtures.{workflow_ref, build_slice}
use stackai_authz_service.Fixtures.Decided.{
  grants, slice, published, key_allows, authorize-workflow,
}
use stackai_authz_service.Cli.{
  Arguments, action_of, context_of, verdict_line, report, import_lines, main,
}

action_of-value : (a : Action) → action_of (action_value a) all_actions ≡ some a
unfolding action_of action_value
action_of-value Action.org_add_user = refl
action_of-value _ = refl

report-decided :
    (args : Arguments) (d : Decision) (allowed : Bool)
    → is_engine_error d ≡ false
    → is_allowed d ≡ allowed
    → report args d ≡ (verdict_line args allowed (policy_id d), if allowed then 0 else 1)
unfolding report
report-decided args (allow id) allowed h k = rw (sym k) refl
report-decided args (deny id) allowed h k = rw (sym k) refl
report-decided args (engine_error m) allowed h k = absurd (cc)

-- With an API key the command line has neither an organization nor scopes.
key_allows-context : (m : String) (a : Action) → key_allows (context_of m) a ≡ not (m == "api_key")
unfolding key_permits
key_allows-context m a = ground arith

-- For a role whose name has no quote or backslash and an action that applies to workflows, the command
-- line prints a verdict and ends with the exit code 0 if the role is granted the action on a workflow
-- without password that is published, open to all, if the flag says so, and the authentication method
-- is not an API key; else with 1; never with 2. `cedar` is the documented behaviour of the library.
pub main-exit :
    (is_authorized : Cedar) (modules : List String) (args : Arguments) (a : Action)
    → IsCedar is_authorized
    → args.action ≡ action_value a
    → applies_to a "Workflow" ≡ true
    → IsPlain (record { kind = "User"; id = args.role })
    → (id : Option String) × (main is_authorized load_policies modules args
        ≡ some (
          import_lines args.show_imports modules
              ++ (verdict_line args
                    (grants args.role true args.exported (need a)
                      && not (args.auth_method == "api_key"))
                    id
                  ∷ []),
          if grants args.role true args.exported (need a) && not (args.auth_method == "api_key")
              then 0
              else 1,
        ))
unfolding main build_slice resource_ref
main-exit is_authorized modules args a cedar named applies plain =
    let c = context_of args.auth_method in
    let d =
      authorize is_authorized load_policies (record { kind = "User"; id = args.role }) a
        workflow_ref (slice args.role args.exported "public" false true) c in
    let (sound, seen) =
      authorize-workflow args.role args.exported "public" false true is_authorized cedar a c plain
        applies in
    let open_to_all : published args.exported "public" false false true ≡ args.exported =
      ground arith in
    let answer =
      report-decided args d _ sound
        (seen ∙ rw (open_to_all, key_allows-context args.auth_method a) refl) in
    let read : action_of args.action all_actions ≡ some a =
      ap (λ n. action_of n all_actions) named ∙ action_of-value a in
    (policy_id d, rw (read, main) (rw answer refl))
