-- ===== src/Explain/Agreement.antt =====
-- The explanation against the access rules and against the guard of the routes.
use stackai_authz_service.Prelude.{
  ℕ, String, ◌≡◌, refl, ◌∙◌, ap, true, false, Option, none, some, List, [], ◌∷◌, if◌then◌else◌,
  Bool-cases, inl, inr, arith, eq_iff, ◌↔◌,
}
use stackai_authz_service.Action.{Action}
use stackai_authz_service.Entities.{EntityRef, Resource, EntitySlice, find_resource}
use stackai_authz_service.Schema.{applies_to}
use stackai_authz_service.Decision.{
  Decision, allow, deny, engine_error, is_allowed, is_engine_error,
}
use stackai_authz_service.Cedar.{Cedar, IsCedar, IsPlain}
use stackai_authz_service.Policies.{load_policies}
use stackai_authz_service.Engine.{AuthzContext, authorize}
use stackai_authz_service.Rules.{rule}
use stackai_authz_service.Rules.Refinement.{kind_of}
use stackai_authz_service.Rules.Environment.{found-kind}
use stackai_authz_service.Rules.Slices.{IsSlice, member_of_slice}
use stackai_authz_service.Provider.{Database, Memo, slice_for}
use stackai_authz_service.Provider.Fetched.{slice_for-IsSlice, slice_for-principal}
use stackai_authz_service.Principal.{Principal, principal_ref, is_anonymous}
use stackai_authz_service.Errors.{Result, ok, err, RequestState, error_status}
use stackai_authz_service.Deps.{
  ResourceSpec, visibility_action, build_context, resolve, requires, requires_authenticated,
}
use stackai_authz_service.Deps.Outcomes.{
  seeing, visibility_action-kind_of, seeing-applies, engine-rule,
}
use stackai_authz_service.Deps.Requires.{guard_status, requires-status}
use stackai_authz_service.Explain.{
  ExplainResponse, explained, explain_visible, explain_found, explain, response,
}

-- What a caller learns of the decision: the status of the refusal, or the word of the answer.
unfoldable pub outcome : Result ExplainResponse → Option ℕ × Option String
unfolding error_status
outcome (ok x) = (none, some x.decision)
outcome (err e) = (error_status {A = ExplainResponse} (err e), none)

-- What the rules demand of an explanation.
abbrev pub rule_outcome :
    EntitySlice → AuthzContext → Action → Option Resource → Option ℕ × Option String
rule_outcome s c a none = (some 404, none)
rule_outcome s c a (some e) =
    if rule (member_of_slice s) c (seeing e) e
    then (none, some (if rule (member_of_slice s) c a e then "Allow" else "Deny"))
    else (some 404, none)

explained-outcome :
    (e : Resource) (s : EntitySlice) (d : Decision)
    → is_engine_error d ≡ false
    → outcome (explained e s d) ≡ (none, some (if is_allowed d then "Allow" else "Deny"))
unfolding outcome explained response
explained-outcome e s (allow id) h = refl
explained-outcome e s (deny id) h = refl
explained-outcome e s (engine_error m) h = absurd (ground arith)

module _ (is_authorized : Cedar) (cedar : IsCedar is_authorized) (action : Action) (r : EntityRef)
    (p : Principal) (st : RequestState) (s : EntitySlice) where
  explain_visible-outcome :
      (e : Resource) (d : Decision)
      → is_engine_error d ≡ false
      → is_engine_error
          (authorize is_authorized load_policies (principal_ref p) action r s (build_context st p))
        ≡ false
      → outcome (explain_visible is_authorized load_policies action r e s p st d) ≡ (
          if is_allowed d
          then (
            none,
            some (
                if is_allowed (
                  authorize is_authorized load_policies
                    (principal_ref p)
                    action
                    r
                    s
                    (build_context st p))
                then "Allow"
                else "Deny"),
          )
          else (some 404, none))
  unfolding outcome explain_visible
  explain_visible-outcome e (allow id) h k = explained-outcome e s _ k
  explain_visible-outcome e (deny id) h k = refl
  explain_visible-outcome e (engine_error m) h k = absurd (ground arith)

  explain_found-outcome :
      (found : Option Resource)
      → find_resource r s.resources ≡ found
      → IsSlice s
      → s.principal.ref ≡ principal_ref p
      → ((e : Resource)
          → find_resource r s.resources ≡ some e
          → applies_to action (kind_of e) ≡ true)
      → IsPlain (principal_ref p)
      → IsPlain r
      → outcome (explain_found is_authorized load_policies action r s p st found)
        ≡ rule_outcome s (build_context st p) action found
  unfolding outcome explain_found
  explain_found-outcome none h valid same fits plain_p plain_r = refl
  explain_found-outcome (some e) h valid same fits plain_p plain_r =
      let c = build_context st p in
      let (sound, seen) =
        engine-rule is_authorized cedar action r s p "" st (seeing e) e valid same h
          (seeing-applies e) plain_p plain_r c in
      let (sound', acted) =
        engine-rule is_authorized cedar action r s p "" st action e valid same h (fits e h) plain_p
          plain_r c in
      rw
        (
          ap visibility_action (found-kind s valid r e h) ∙ visibility_action-kind_of e,
          outcome,
          explain_found,
        )
        (explain_visible-outcome e _ sound sound' ∙ rw (seen, acted) refl)

  -- Where the provider returns a slice, the endpoint answers 401 to an anonymous caller; else 404 if
  -- the slice lacks the resource or the rules do not let the caller see it; else with the decision of
  -- the rules about the action, "Allow" or "Deny". The action fits the type of the resource, the
  -- references are plain, and `cedar` is the documented behaviour of the library.
  pub explain-outcome :
      (db : Database) (memo : Memo)
      → slice_for db [] (principal_ref p) (r ∷ []) ≡ some (s, memo)
      → ((e : Resource)
          → find_resource r s.resources ≡ some e
          → applies_to action (kind_of e) ≡ true)
      → IsPlain (principal_ref p)
      → IsPlain r
      → outcome (explain is_authorized load_policies db action r p st) ≡ (
          if is_anonymous p
          then (some 401, none)
          else rule_outcome s (build_context st p) action (find_resource r s.resources))
  unfolding outcome explain requires_authenticated
  explain-outcome db memo fetched fits plain_p plain_r = elim (Bool-cases (is_anonymous p)) [
    | inl anonymous ↦ rw (anonymous, requires_authenticated, outcome) refl
    | inr known ↦
        rw (known, requires_authenticated, fetched, outcome)
          (explain_found-outcome (find_resource r s.resources) refl
            (slice_for-IsSlice db [] memo (principal_ref p) (r ∷ []) s refl fetched)
            (slice_for-principal db [] memo (principal_ref p) (r ∷ []) s fetched) fits plain_p
            plain_r)
  ]

  rule_outcome-guard_status :
      (c : AuthzContext) (found : Option Resource)
      → (rule_outcome s c action found).1 ≡ some "Allow" ↔ guard_status s c action found ≡ none
  rule_outcome-guard_status c none = (λ h. absurd (ground arith), λ h. absurd (ground arith))
  rule_outcome-guard_status c (some e) =
      elim (Bool-cases (rule (member_of_slice s) c (seeing e) e)) [
        | inr unseen ↦ rw unseen (λ h. absurd (ground arith), λ h. absurd (ground arith))
        | inl seen ↦ elim (Bool-cases (rule (member_of_slice s) c action e)) [
          | inr denied ↦
              rw (seen, denied)
                (λ h. absurd (ground (arith, eq_iff "Deny" "Allow")), λ h. absurd (ground arith))
          | inl granted ↦ rw (seen, granted) (λ h. refl, λ h. refl)
        ]
      ]

  -- The endpoint answers "Allow" exactly if the guard of a route with this action and this resource
  -- lets the caller pass, on the same database and request state. The conditions are those of the two.
  pub explain-requires :
      (db : Database) (memo : Memo) (spec : ResourceSpec) (params : List (String × String))
      (cid : String)
      → resolve spec params ≡ some r
      → slice_for db [] (principal_ref p) (r ∷ []) ≡ some (s, memo)
      → ((e : Resource)
          → find_resource r s.resources ≡ some e
          → applies_to action (kind_of e) ≡ true)
      → IsPlain (principal_ref p)
      → IsPlain r
      → (outcome (explain is_authorized load_policies db action r p st)).1 ≡ some "Allow"
        ↔ error_status (requires is_authorized load_policies db action spec p cid params st).0
          ≡ none
  explain-requires db memo spec params cid resolved fetched fits plain_p plain_r =
      rw
        (
          explain-outcome db memo fetched fits plain_p plain_r,
          requires-status is_authorized cedar db action spec p cid params st r s memo resolved
              fetched fits plain_p plain_r,
        )
        (elim (Bool-cases (is_anonymous p)) [
          | inl anonymous ↦ rw anonymous (λ h. absurd (ground arith), λ h. absurd (ground arith))
          | inr known ↦
              rw known
                (rule_outcome-guard_status (build_context st p) (find_resource r s.resources))
        ])
