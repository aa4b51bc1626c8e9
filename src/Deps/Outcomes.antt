-- ===== src/Deps/Outcomes.antt =====
-- How `requires` answers: the status of every outcome, and the audit rows that it leaves.
use stackai_authz_service.Prelude.{
  ℕ, String, ◌≡◌, refl, sym, ◌∙◌, ap, subst, true, false, Option, none, some, List, any-find,
  any-find-none, arith, if◌then◌else◌,
}
use stackai_authz_service.Action.{Action}
use stackai_authz_service.Entities.{
  EntityRef, ref_eq, literal, Resource, workflow, team, org, resource_ref, EntitySlice,
  find_resource,
}
use stackai_authz_service.Schema.{applies_to}
use stackai_authz_service.Decision.{
  Decision, allow, deny, engine_error, is_allowed, is_engine_error,
}
use stackai_authz_service.Cedar.{Cedar, IsCedar, IsPlain, Policy}
use stackai_authz_service.Policies.{load_policies}
use stackai_authz_service.Engine.{AuthzContext, authorize}
use stackai_authz_service.Rules.{rule}
use stackai_authz_service.Rules.Refinement.{kind_of}
use stackai_authz_service.Rules.Environment.{found-kind}
use stackai_authz_service.Rules.Slices.{IsSlice, member_of_slice}
use stackai_authz_service.Rules.Decisions.{authorize-rule}
use stackai_authz_service.Principal.{Principal, principal_ref}
use stackai_authz_service.Errors.{Result, err, RequestState, resource_not_visible, error_status}
use stackai_authz_service.Deps.{
  visibility_action, build_context, in_slice, act, check_visible, decide,
}

-- The action that asks whether a resource can be seen.
unfoldable pub seeing : Resource → Action
seeing (workflow w) = Action.workflow_view
seeing (team t) = Action.team_view
seeing (org o) = Action.org_view

pub visibility_action-kind_of : (e : Resource) → visibility_action (kind_of e) ≡ some (seeing e)
unfolding visibility_action seeing
visibility_action-kind_of (workflow w) = refl
visibility_action-kind_of (team t) = refl
visibility_action-kind_of (org o) = refl

pub seeing-applies : (e : Resource) → applies_to (seeing e) (kind_of e) ≡ true
unfolding seeing applies_to
seeing-applies (workflow w) = refl
seeing-applies (team t) = refl
seeing-applies (org o) = refl

pub in_slice-find :
    (r : EntityRef) (s : EntitySlice) (e : Resource)
    → find_resource r s.resources ≡ some e
    → in_slice r s ≡ true
unfolding find_resource in_slice
in_slice-find r s e h = any-find (λ x. ref_eq (resource_ref x) r) s.resources e h

pub not_in_slice-find :
    (r : EntityRef) (s : EntitySlice) → find_resource r s.resources ≡ none → in_slice r s ≡ false
unfolding find_resource in_slice
not_in_slice-find r s h = any-find-none (λ x. ref_eq (resource_ref x) r) s.resources h

-- The status that the access rules demand for a resource that the slice holds: 404 if it cannot be
-- seen, 403 if it can and the action is not granted.
abbrev pub rule_status : EntitySlice → AuthzContext → Action → Resource → Option ℕ
rule_status s c a e =
    if rule (member_of_slice s) c (seeing e) e
    then if rule (member_of_slice s) c a e then none else some 403
    else some 404

module _ (is_authorized : Cedar) (policies : List Policy) (action : Action) (r : EntityRef)
    (s : EntitySlice) (p : Principal) (cid : String) (st : RequestState) where
  act-status :
      (d : Decision)
      → error_status (act is_authorized policies action r s p cid st d).0
        ≡ (if is_engine_error d then some 500 else if is_allowed d then none else some 403)
  unfolding act error_status
  act-status (allow id) = refl
  act-status (deny id) = refl
  act-status (engine_error m) = refl

  check_visible-status :
      (visibility : Action) (d : Decision)
      → error_status (check_visible is_authorized policies visibility action r s p cid st d).0 ≡ (
          if is_engine_error d
          then some 500
          else if is_allowed d
          then (let d' =
                authorize is_authorized policies
                  (principal_ref p)
                  action
                  r
                  s
                  (build_context st p) in
              if is_engine_error d' then some 500 else if is_allowed d' then none else some 403)
          else some 404)
  unfolding check_visible error_status
  check_visible-status visibility (allow id) = act-status _
  check_visible-status visibility (deny id) = refl
  check_visible-status visibility (engine_error m) = refl

module _ (is_authorized : Cedar) (cedar : IsCedar is_authorized) (action : Action) (r : EntityRef)
    (s : EntitySlice) (p : Principal) (cid : String) (st : RequestState) where
  pub engine-rule :
      (a : Action) (e : Resource)
      → IsSlice s
      → s.principal.ref ≡ principal_ref p
      → find_resource r s.resources ≡ some e
      → applies_to a (kind_of e) ≡ true
      → IsPlain (principal_ref p)
      → IsPlain r
      → (c : AuthzContext)
      → (is_engine_error (authorize is_authorized load_policies (principal_ref p) a r s c) ≡ false)
        × (is_allowed (authorize is_authorized load_policies (principal_ref p) a r s c)
            ≡ rule (member_of_slice s) c a e)
  engine-rule a e valid same found applies plain_p plain_r c =
      subst
        (λ q.
          (is_engine_error (authorize is_authorized load_policies q a r s c) ≡ false)
          × (is_allowed (authorize is_authorized load_policies q a r s c)
              ≡ rule (member_of_slice s) c a e))
        same
        (authorize-rule is_authorized cedar a r e s c valid found applies
          (subst IsPlain (sym same) plain_p) plain_r)

  pub decide-visible :
      (v : Action)
      → in_slice r s ≡ true
      → visibility_action r.kind ≡ some v
      → decide is_authorized load_policies action r s p cid st
        ≡ check_visible is_authorized load_policies v action r s p cid st
            (authorize is_authorized load_policies (principal_ref p) v r s (build_context st p))
  unfolding decide
  decide-visible v h k = rw (h, k)

  pub decide-status :
      (e : Resource)
      → IsSlice s
      → s.principal.ref ≡ principal_ref p
      → find_resource r s.resources ≡ some e
      → applies_to action (kind_of e) ≡ true
      → IsPlain (principal_ref p)
      → IsPlain r
      → error_status (decide is_authorized load_policies action r s p cid st).0
        ≡ rule_status s (build_context st p) action e
  decide-status e valid same found applies plain_p plain_r =
      let c = build_context st p in
      let (sound, seen) =
        engine-rule (seeing e) e valid same found (seeing-applies e) plain_p plain_r c in
      let (sound', acted) = engine-rule action e valid same found applies plain_p plain_r c in
      ap (λ (x : Result (Unit {0}) × RequestState). error_status x.0)
        (decide-visible (seeing e) (in_slice-find r s e found)
          (ap visibility_action (found-kind s valid r e found) ∙ visibility_action-kind_of e))
      ∙ check_visible-status is_authorized load_policies action r s p cid st (seeing e) _
      ∙ ground arith

  pub decide-absent :
      find_resource r s.resources ≡ none
      → decide is_authorized load_policies action r s p cid st
        ≡ (err (resource_not_visible (literal r)), st)
  unfolding decide
  decide-absent h = rw (not_in_slice-find r s h)
