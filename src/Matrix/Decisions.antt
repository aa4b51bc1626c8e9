-- ===== src/Matrix/Decisions.antt =====
-- The decisions in the rows of the matrix, against the roles and flags of the cases.
use stackai_authz_service.Prelude.{
  String, ◌≡◌, refl, ◌∙◌, ap, ap₂, map-append, Bool, true, false, ◌&&◌, List, [], ◌∷◌, ◌++◌, map,
  All, if◌then◌else◌, arith, ◌⊎◌, inl, inr, lacks,
}
use stackai_authz_service.Action.{Action}
use stackai_authz_service.Entities.{EntityRef}
use stackai_authz_service.Schema.{applies_to}
use stackai_authz_service.Decision.{
  Decision, allow, deny, engine_error, is_allowed, is_engine_error,
}
use stackai_authz_service.Cedar.{Cedar, IsCedar, IsPlain}
use stackai_authz_service.Policies.{load_policies}
use stackai_authz_service.Engine.{AuthzContext}
use stackai_authz_service.Rules.{need, key_permits}
use stackai_authz_service.Fixtures.{
  team_ref, workflow_ref, build_slice, RoleCase, ExportCase, KeyCase,
}
use stackai_authz_service.Fixtures.Decided.{
  grants, published, key_allows, authorize-workflow, authorize-team,
}
use stackai_authz_service.Matrix.{
  Row, decide, key_resource, jwt_context, anonymous_context, key_context, decided, role_rows,
  export_rows, key_rows, rows,
}

-- The action of a case fits the type of its resource.
abbrev Fits : Action → EntityRef → Type 0
Fits a r =
    ((applies_to a "Workflow" ≡ true) × (r ≡ workflow_ref))
    ⊎ ((applies_to a "Team" ≡ true) × (r ≡ team_ref))

abbrev pub FitsRole : RoleCase → Type 0
FitsRole c = Fits c.action c.resource × IsPlain (record { kind = "User"; id = c.role })

abbrev pub FitsKey : KeyCase → Type 0
FitsKey c = Fits c.action (key_resource c.action)

abbrev verdict : Bool → String
verdict allowed = if allowed then "ALLOW" else "DENY"

-- What the cases grant.
abbrev pub role_granted : RoleCase → Bool
role_granted c = grants c.role true false (need c.action)

abbrev pub export_granted : ExportCase → Bool
export_granted c = published c.exported c.visibility c.protected c.verified c.in_org

abbrev pub key_granted : KeyCase → Bool
key_granted c =
    grants "super_admin" true false (need c.action) && key_allows (key_context c.scopes) c.action

decide-verdict :
    (d : Decision) (allowed : Bool)
    → is_engine_error d ≡ false
    → is_allowed d ≡ allowed
    → (decide d).0 ≡ verdict allowed
unfolding decide
decide-verdict (allow id) allowed h k = ap verdict k
decide-verdict (deny id) allowed h k = ap verdict k
decide-verdict (engine_error m) allowed h k = absurd (cc)

module _ (is_authorized : Cedar) (cedar : IsCedar is_authorized) where
  -- The decision on an unpublished fixture.
  decided-role :
      (role : String) (a : Action) (r : EntityRef) (c : AuthzContext)
      → IsPlain (record { kind = "User"; id = role })
      → Fits a r
      → (decided is_authorized load_policies
          (build_slice role false "public" false true team_ref)
          a
          r
          c).0
        ≡ verdict (grants role true false (need a) && key_allows c a)
  unfolding build_slice
  decided-role role a r c plain (inl (applies, same)) =
      let (sound, seen) =
        authorize-workflow role false "public" false true is_authorized cedar a c plain applies in
      rw same (decide-verdict _ _ sound seen)
  decided-role role a r c plain (inr (applies, same)) =
      let (sound, seen) =
        authorize-team role false "public" false true is_authorized cedar a c plain applies in
      rw same (decide-verdict _ _ sound seen)

  role_rows-decision :
      (cases : List RoleCase)
      → All FitsRole cases
      → map (λ (r : Row). r.decision) (role_rows is_authorized load_policies cases)
        ≡ map (λ c. verdict (role_granted c)) cases
  unfolding role_rows key_permits
  role_rows-decision [] h = refl
  role_rows-decision (c ∷ cases) ((fits, plain), h) =
      ap₂ (λ x xs. x ∷ xs)
        (decided-role c.role c.action c.resource jwt_context plain fits ∙ ap verdict (ground arith))
        (role_rows-decision cases h)

  export_rows-decision :
      (cases : List ExportCase)
      → map (λ (r : Row). r.decision) (export_rows is_authorized load_policies cases)
        ≡ map (λ c. verdict (export_granted c)) cases
  unfolding export_rows build_slice key_permits grants need applies_to
  export_rows-decision [] = refl
  export_rows-decision (c ∷ cases) =
      let (sound, seen) =
        authorize-workflow "anonymous" c.exported c.visibility c.protected c.in_org is_authorized
          cedar Action.workflow_run_exported (anonymous_context c.verified)
          (unfold lacks in (refl, refl, refl)) refl in
      ap₂ (λ x xs. x ∷ xs) (decide-verdict _ _ sound (seen ∙ ground arith))
        (export_rows-decision cases)

  key_rows-decision :
      (cases : List KeyCase)
      → All FitsKey cases
      → map (λ (r : Row). r.decision) (key_rows is_authorized load_policies cases)
        ≡ map (λ c. verdict (key_granted c)) cases
  unfolding key_rows
  key_rows-decision [] h = refl
  key_rows-decision (c ∷ cases) (fits, h) =
      ap₂ (λ x xs. x ∷ xs)
        (decided-role "super_admin" c.action (key_resource c.action) (key_context c.scopes)
          (unfold lacks in (refl, refl, refl)) fits)
        (key_rows-decision cases h)

  -- The rows that the script makes of any lists of cases show, in their order, `ALLOW` for the cases
  -- that are granted and `DENY` for the others, and never `ERROR`: a case of a role by what the role
  -- has, a case of a published workflow by its visibility and password, and a case of a key by what
  -- the key keeps of a super-admin's rights. The actions fit the types of the resources, the names of
  -- roles have no quote or backslash, and `cedar` is the documented behaviour of the library.
  pub rows-decision :
      (roles : List RoleCase) (exports : List ExportCase) (keys : List KeyCase)
      → All FitsRole roles
      → All FitsKey keys
      → map (λ (r : Row). r.decision) (rows is_authorized load_policies roles exports keys)
        ≡ map (λ c. verdict (role_granted c)) roles
          ++ (map (λ c. verdict (export_granted c)) exports
              ++ map (λ c. verdict (key_granted c)) keys)
  unfolding rows
  rows-decision roles exports keys fit_roles fit_keys =
      let column = λ (r : Row). r.decision in
      map-append column (role_rows is_authorized load_policies roles) _
      ∙ ap₂ (λ xs ys. xs ++ ys) (role_rows-decision roles fit_roles)
          (map-append column (export_rows is_authorized load_policies exports) _
            ∙ ap₂ (λ xs ys. xs ++ ys) (export_rows-decision exports)
                (key_rows-decision keys fit_keys))
