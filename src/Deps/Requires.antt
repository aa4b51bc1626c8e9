-- ===== src/Deps/Requires.antt =====
-- The guard as a whole: what a request on a guarded route is answered, and what it leaves in the
-- audit log.
use stackai_authz_service.Prelude.{
  ℕ, String, ◌≡◌, refl, ap, true, Option, none, some, List, [], ◌∷◌, if◌then◌else◌, Bool-cases, inl,
  inr,
}
use stackai_authz_service.Action.{Action}
use stackai_authz_service.Entities.{EntityRef, Resource, EntitySlice, find_resource}
use stackai_authz_service.Schema.{applies_to}
use stackai_authz_service.Cedar.{Cedar, IsCedar, IsPlain}
use stackai_authz_service.Policies.{load_policies}
use stackai_authz_service.Engine.{AuthzContext}
use stackai_authz_service.Rules.Refinement.{kind_of}
use stackai_authz_service.Rules.Slices.{IsSlice}
use stackai_authz_service.Provider.{Database, Memo, slice_for}
use stackai_authz_service.Provider.Fetched.{slice_for-IsSlice, slice_for-principal}
use stackai_authz_service.Principal.{Principal, principal_ref, is_anonymous}
use stackai_authz_service.Errors.{Result, RequestState, error_status}
use stackai_authz_service.Deps.{ResourceSpec, resolve, build_context, decide, requires}
use stackai_authz_service.Deps.Outcomes.{rule_status, decide-status, decide-absent}

-- The state once the guard has stashed the correlation id and the container of audit tasks.
abbrev pub stash : String → RequestState → RequestState
stash cid st = record st { correlation_id = some cid; audit_tasks = true }

-- The status that the rules demand of the guard: 404 for a resource that the slice lacks.
abbrev pub guard_status : EntitySlice → AuthzContext → Action → Option Resource → Option ℕ
guard_status s c a none = some 404
guard_status s c a (some e) = rule_status s c a e

module _ (is_authorized : Cedar) (cedar : IsCedar is_authorized) where
  decide-guard :
      (action : Action) (r : EntityRef) (s : EntitySlice) (p : Principal) (cid : String)
      (st : RequestState) (found : Option Resource)
      → find_resource r s.resources ≡ found
      → ((e : Resource)
          → find_resource r s.resources ≡ some e
          → applies_to action (kind_of e) ≡ true)
      → IsSlice s
      → s.principal.ref ≡ principal_ref p
      → IsPlain (principal_ref p)
      → IsPlain r
      → error_status (decide is_authorized load_policies action r s p cid st).0
        ≡ guard_status s (build_context st p) action found
  unfolding error_status
  decide-guard action r s p cid st none h fits valid same plain_p plain_r =
      ap (λ (x : Result (Unit {0}) × RequestState). error_status x.0)
        (decide-absent is_authorized cedar action r s p cid st h)
  decide-guard action r s p cid st (some e) h fits valid same plain_p plain_r =
      decide-status is_authorized cedar action r s p cid st e valid same h (fits e h) plain_p
        plain_r

  -- On a route whose path names the resource `r`, where the provider returns the slice `s`, the guard
  -- fails with 401 for an anonymous caller; else with 404 if the slice lacks the resource or the
  -- rules do not let the caller see it; else with 403 if the rules do not grant the action; else it
  -- lets the handler run. It fails with 500 on none of these. The action fits the type of the
  -- resource, the references are plain, and `cedar` is the documented behaviour of the library.
  pub requires-status :
      (db : Database) (action : Action) (spec : ResourceSpec) (p : Principal) (cid : String)
      (params : List (String × String)) (st : RequestState) (r : EntityRef) (s : EntitySlice)
      (memo : Memo)
      → resolve spec params ≡ some r
      → slice_for db [] (principal_ref p) (r ∷ []) ≡ some (s, memo)
      → ((e : Resource)
          → find_resource r s.resources ≡ some e
          → applies_to action (kind_of e) ≡ true)
      → IsPlain (principal_ref p)
      → IsPlain r
      → error_status (requires is_authorized load_policies db action spec p cid params st).0 ≡ (
          if is_anonymous p
          then some 401
          else guard_status s (build_context st p) action (find_resource r s.resources))
  unfolding requires error_status
  requires-status db action spec p cid params st r s memo resolved fetched fits plain_p plain_r =
      elim (Bool-cases (is_anonymous p)) [
        | inl anonymous ↦ rw anonymous
        | inr known ↦
            rw (known, resolved, fetched)
              (decide-guard action r s p cid (stash cid st) (find_resource r s.resources) refl fits
                (slice_for-IsSlice db [] memo (principal_ref p) (r ∷ []) s refl fetched)
                (slice_for-principal db [] memo (principal_ref p) (r ∷ []) s fetched) plain_p
                plain_r)
      ]
