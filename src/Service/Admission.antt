-- ===== src/Service/Admission.antt =====
-- What a user who has been added to an organization can see of it.
use stackai_authz_service.Prelude.{
  String, ◌≡◌, refl, ◌∙◌, ap, subst, Bool, true, false, none, some, List, [], ◌∷◌, any, any-append,
  map, keep, ◌==◌, arith, eq_iff, Bool-cases, inl, inr,
}
use stackai_authz_service.Action
use stackai_authz_service.Errors.{Result, ok, err, crash}
use stackai_authz_service.Entities.{EntityRef, Resource, org}
use stackai_authz_service.Engine.{AuthzContext}
use stackai_authz_service.Rules.{rule}
use stackai_authz_service.Rules.Slices.{member_of_slice}
use stackai_authz_service.Provider.{
  CapabilitySlice, Memo, capability_slice, build_slice, build_org_entity,
}
use stackai_authz_service.Provider.Keys.{scoped, member-org}
use stackai_authz_service.Deps.Outcomes.{seeing}
use stackai_authz_service.Deps.Requires.{guard_status}
use stackai_authz_service.Store.{OrgMembership, Store, Outcome, done, api_error}
use stackai_authz_service.Store.Triggers.{is_org_membership, insert_org_membership}
use stackai_authz_service.Store.Queries.{queries, org_row}
use stackai_authz_service.Store.Yields.{
  Yields, with_org_membership, insert_org_membership-Yields, join_default_team-Yields,
}
use stackai_authz_service.Violations.{call_bare}
use stackai_authz_service.Memberships.{after_ok, resolve_role_id, add_org_member}
use stackai_authz_service.Service.Scopes.{capability_slice-keys}

module _ (org_id user_id : String) where
  -- The user is a member of the organization.
  abbrev IsMember : Store → Type 0
  IsMember s = any (is_org_membership org_id user_id) s.org_memberships ≡ true

  insert_org_membership-IsMember :
      (role_id : String) (s : Store)
      → Yields IsMember (
          insert_org_membership
            (record { org_id = org_id; user_id = user_id; role_id = role_id })
            s)
  insert_org_membership-IsMember role_id s =
      let m : OrgMembership = record { org_id = org_id; user_id = user_id; role_id = role_id } in
      let added : IsMember (with_org_membership m s) =
        any-append (is_org_membership org_id user_id) s.org_memberships (m ∷ [])
        ∙ ground (arith, eq_iff org_id org_id, eq_iff user_id user_id) in
      insert_org_membership-Yields IsMember m s (λ fits absent.
        join_default_team-Yields IsMember m (with_org_membership m s) (λ e. added)
          (λ t e there. added) (λ t role e fits. added))

  -- A call that answers well has been carried out.
  call_bare-Yields :
      (P : Store → Type 0) (s t : Store) (o : Outcome Store)
      → Yields P o
      → call_bare s o ≡ (ok tt, t)
      → P t
  unfolding call_bare
  call_bare-Yields P s t (done u) k h = subst P (ap (λ (x : Result (Unit {0}) × Store). x.1) h) k
  call_bare-Yields P s t (api_error code message) k h =
      (let bad : err crash ≡ ok tt = ap (λ (x : Result (Unit {0}) × Store). x.0) h in
        absurd (ground arith))

  after_ok-Yields :
      (P : Store → Type 0) (r : Result String) (s t : Store)
      (k : String → Result (Unit {0}) × Store)
      → ((a : String) → k a ≡ (ok tt, t) → P t)
      → after_ok r s k ≡ (ok tt, t)
      → P t
  after_ok-Yields P (ok a) s t k l h = l a h
  after_ok-Yields P (err e) s t k l h =
      (let bad : err e ≡ ok tt = ap (λ (x : Result (Unit {0}) × Store). x.0) h in
        absurd (ground arith))

  add_org_member-IsMember :
      (role : String) (s t : Store) → add_org_member org_id user_id role s ≡ (ok tt, t) → IsMember t
  unfolding add_org_member
  add_org_member-IsMember role s t h =
      after_ok-Yields IsMember (resolve_role_id "org" s org_id role) s t _
        (λ role_id.
          call_bare-Yields IsMember s t
            (insert_org_membership
              (record { org_id = org_id; user_id = user_id; role_id = role_id }) s)
            (insert_org_membership-IsMember role_id s))
        h

  scoped-IsMember :
      (t : Store) (ms : List OrgMembership)
      → any (is_org_membership org_id user_id) ms ≡ true
      → scoped org_id (map (org_row t) (keep (λ m. m.user_id == user_id) ms)) ≡ true
  unfolding org_row
  scoped-IsMember t [] h = absurd (ground arith)
  scoped-IsMember t (m ∷ ms) h = elim (Bool-cases (is_org_membership org_id user_id m)) [
    | inl here ↦
        (let mine : (m.user_id == user_id) ≡ true = ground arith in
          let its : (m.org_id == org_id) ≡ true = ground arith in rw mine (ground arith))
    | inr other ↦ (let rest = scoped-IsMember t ms (ground arith) in ground arith)
  ]

  -- Once a user has been added to an organization, the guard of the routes that view it lets the user
  -- pass: on the tables after the addition, and on the slice that the provider builds for that user
  -- over whatever entities. The user is identified by a uuid, and comes without an API key.
  pub add_org_member-shows :
      (is_uuid : String → Bool) (role : String) (s t : Store) (es : List Resource)
      (c : AuthzContext) (caps : CapabilitySlice) (memo : Memo)
      → add_org_member org_id user_id role s ≡ (ok tt, t)
      → is_uuid user_id ≡ true
      → capability_slice (queries is_uuid t) [] user_id ≡ some (caps, memo)
      → (c.auth_method == "api_key") ≡ false
      → guard_status
          (build_slice (record { kind = "User"; id = user_id }) caps es)
          c
          Action.org_view
          (some (org (build_org_entity org_id)))
        ≡ none
  unfolding rule seeing build_org_entity
  add_org_member-shows is_uuid role s t es c caps memo added uuid known person =
      let user : EntityRef = record { kind = "User"; id = user_id } in
      let belongs : member_of_slice (build_slice user caps es)
            (record { kind = "Organization"; id = org_id })
          ≡ true =
        member-org user caps es org_id refl
        ∙ (capability_slice-keys is_uuid t user_id caps memo org_id known).1
        ∙ rw (uuid, scoped-IsMember t t.org_memberships (add_org_member-IsMember role s t added))
            refl in
      ground arith
