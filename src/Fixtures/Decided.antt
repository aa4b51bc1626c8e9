-- ===== src/Fixtures/Decided.antt =====
-- The decisions on the slices of the fixtures, in terms of the role's name and the flags.
use stackai_authz_service.Prelude.{
  String, ◌≡◌, refl, ◌∙◌, ap, Bool, true, false, ◌&&◌, ◌||◌, not, List, [], ◌∷◌, ◌++◌, map, All,
  All-append, if◌then◌else◌, arith, eq_iff, ◌==◌, lacks, Bool-cases, inl, inr,
}
use stackai_authz_service.Action.{Action}
use stackai_authz_service.Capability.{Capability, has_capability, all_capabilities}
use stackai_authz_service.Entities.{
  EntityRef, ref_eq, mem_ref, cap_ref, Resource, workflow, team, resource_ref, find_resource,
  EntitySlice,
}
use stackai_authz_service.Cedar.Hierarchy.{ref_eq_refl}
use stackai_authz_service.Schema.{applies_to}
use stackai_authz_service.Decision.{is_allowed, is_engine_error}
use stackai_authz_service.Cedar.{Cedar, IsCedar, IsPlain}
use stackai_authz_service.Policies.{load_policies}
use stackai_authz_service.Engine.{AuthzContext, authorize}
use stackai_authz_service.Rules.{
  Need, membership, capability, publication, need, rule, meets, key_permits, runs_published, org_of,
  cap_of, admins_of,
}
use stackai_authz_service.Rules.Slices.{IsSlice, member_of_slice, HasKind}
use stackai_authz_service.Rules.Decisions.{authorize-rule}
use stackai_authz_service.Provider.Refs.{mem_ref-caps, mem_ref-append, ref_eq-cap_ref}
use stackai_authz_service.Provider.Fetched.{caps-kind, other-kind, cap_ref-kind}
use stackai_authz_service.Fixtures.{
  org_ref, team_ref, workflow_ref, role_caps, principal_caps, fixture_workflow, fixture_team,
  build_slice,
}

member-parts :
    (p x : EntityRef) (caps admin orgs : List EntityRef)
    → ref_eq p x ≡ false
    → mem_ref x (p ∷ ((caps ++ admin) ++ orgs))
      ≡ (mem_ref x caps || mem_ref x admin || mem_ref x orgs)
unfolding mem_ref
member-parts p x caps admin orgs h =
    ground (arith, mem_ref-append x (caps ++ admin) orgs, mem_ref-append x caps admin)

mem_ref-if : (x r : EntityRef) (b : Bool) → mem_ref x (if b then r ∷ [] else []) ≡ (b && ref_eq r x)
unfolding mem_ref
mem_ref-if x r true = ground arith
mem_ref-if x r false = refl

mem_ref-other :
    (x : EntityRef) (caps : List Capability)
    → (x.kind == "Cap") ≡ false
    → mem_ref x (map (λ c. cap_ref c "team" "team-1") caps) ≡ false
unfolding mem_ref
mem_ref-other x [] h = refl
mem_ref-other x (c ∷ cs) h = ground (
  arith,
  other-kind (cap_ref c "team" "team-1") x,
  mem_ref-other x cs h,
  cap_ref-kind c "team" "team-1",
  eq_iff x.kind "Cap",
  eq_iff "Cap" x.kind,
)

-- Whether a published workflow runs for a caller.
abbrev pub published :
    (exported : Bool) (visibility : String) (password_protected verified in_org : Bool) → Bool
published exported visibility password_protected verified in_org =
    exported && (not password_protected || verified) && (not (visibility == "org_only") || in_org)

-- What a role has, in plain terms: its row of the table, and everything for the super-admin.
unfoldable pub grants : (role : String) (in_org runs : Bool) → Need → Bool
unfolding has_capability role_caps
grants role in_org runs membership = in_org || role == "super_admin"
grants role in_org runs (capability Capability.manage_org) = role == "super_admin"
grants role in_org runs (capability c) = has_capability c (role_caps role) || role == "super_admin"
grants role in_org runs publication = runs

-- What an API key keeps, for a resource of the fixture's organization.
abbrev pub key_allows : AuthzContext → Action → Bool
key_allows c a = key_permits c a (team (fixture_team team_ref))

module _ (role : String) (exported : Bool) (visibility : String)
    (password_protected in_org : Bool) where
  abbrev pub slice : EntitySlice
  slice = (build_slice role exported visibility password_protected in_org team_ref).1

  abbrev pub the_workflow : Resource
  the_workflow = workflow (fixture_workflow exported visibility password_protected team_ref)

  abbrev pub the_team : Resource
  the_team = team (fixture_team team_ref)

  principal_caps-kind : All (HasKind "Cap") (principal_caps role team_ref)
  unfolding principal_caps cap_ref
  principal_caps-kind = elim (Bool-cases (role == "super_admin")) [
    | inl e ↦ rw e (
        All-append (HasKind "Cap") (map (λ c. cap_ref c "team" "team-1") (role_caps role)) _
          (caps-kind "team" "team-1" (role_caps role)) (refl, tt))
    | inr e ↦ rw e (
        All-append (HasKind "Cap") (map (λ c. cap_ref c "team" "team-1") (role_caps role)) _
          (caps-kind "team" "team-1" (role_caps role)) tt)
  ]

  slice-IsSlice : IsSlice slice
  unfolding build_slice resource_ref
  slice-IsSlice = record {
    user = refl;
    caps = All-append (HasKind "Cap") (principal_caps role team_ref) _ principal_caps-kind (
        All-append (HasKind "Cap") (map (λ c. cap_ref c "team" "team-1") all_capabilities)
          (cap_ref Capability.manage_org "org" "org-1" ∷ [])
          (caps-kind "team" "team-1" all_capabilities)
          (caps-kind "org" "org-1" (Capability.manage_org ∷ [])));
    capabilities = principal_caps-kind;
    orgs = elim in_org as (λ b. All (HasKind "Organization") (if b then org_ref ∷ [] else [])) [
      | true ↦ (refl, tt)
      | false ↦ tt
    ];
    resources = (refl, (refl, tt));
  }

  -- What the principal is in: its own capabilities and organizations.
  member-slice :
      (x : EntityRef)
      → ("User" == x.kind) ≡ false
      → member_of_slice slice x ≡ (
          mem_ref x (map (λ c. cap_ref c "team" "team-1") (role_caps role))
          || (role == "super_admin" && ref_eq (cap_ref Capability.manage_org "org" "org-1") x)
          || (in_org && ref_eq org_ref x))
  unfolding member_of_slice build_slice principal_caps
  member-slice x other = ground (
    arith,
    member-parts (record { kind = "User"; id = role }) x
        (map (λ c. cap_ref c "team" "team-1") (role_caps role))
        (if role == "super_admin" then cap_ref Capability.manage_org "org" "org-1" ∷ [] else [])
        (if in_org then org_ref ∷ [] else []),
    other-kind (record { kind = "User"; id = role }) x,
    mem_ref-if x (cap_ref Capability.manage_org "org" "org-1") (role == "super_admin"),
    mem_ref-if x org_ref in_org,
  )

  member-team_cap :
      (c : Capability)
      → member_of_slice slice (cap_ref c "team" "team-1") ≡ has_capability c (role_caps role)
  member-team_cap c =
      let x = cap_ref c "team" "team-1" in
      let own =
        mem_ref-caps c "team" "team" "team-1" "team-1" (role_caps role) (unfold lacks in refl)
          (unfold lacks in refl) in
      let admin =
        ref_eq-cap_ref Capability.manage_org c "org" "team" "org-1" "team-1" (unfold lacks in refl)
          (unfold lacks in refl) in
      let outside : ref_eq org_ref x ≡ false = unfold ref_eq cap_ref in refl in
      member-slice x (unfold cap_ref in refl) ∙ rw (own, admin, outside) (ground arith)

  member-admin :
      member_of_slice slice (cap_ref Capability.manage_org "org" "org-1") ≡ (role == "super_admin")
  member-admin =
      let x = cap_ref Capability.manage_org "org" "org-1" in
      let own =
        mem_ref-caps Capability.manage_org "team" "org" "team-1" "org-1" (role_caps role)
          (unfold lacks in refl) (unfold lacks in refl) in
      let outside : ref_eq org_ref x ≡ false = unfold ref_eq cap_ref in refl in
      member-slice x (unfold cap_ref in refl) ∙ rw (own, ref_eq_refl x, outside) (ground arith)

  member-org : member_of_slice slice org_ref ≡ in_org
  member-org =
      let own = mem_ref-other org_ref (role_caps role) refl in
      let outside : ref_eq (cap_ref Capability.manage_org "org" "org-1") org_ref ≡ false =
        unfold ref_eq cap_ref in refl in
      member-slice org_ref refl ∙ rw (own, outside, ref_eq_refl org_ref) (ground arith)

  meets-workflow :
      (c : AuthzContext) (n : Need)
      → meets (member_of_slice slice) c the_workflow n
        ≡ grants role in_org
            (published exported visibility password_protected c.password_verified in_org)
            n
  unfolding meets org_of cap_of admins_of grants runs_published
  meets-workflow c membership = rw (member-org, member-admin) refl
  meets-workflow c (capability Capability.manage_org) = member-admin
  meets-workflow c (capability x) = rw (member-team_cap x, member-admin) refl
  meets-workflow c publication = rw member-org refl

  meets-team :
      (c : AuthzContext) (n : Need)
      → meets (member_of_slice slice) c the_team n ≡ grants role in_org false n
  unfolding meets org_of cap_of admins_of grants runs_published
  meets-team c membership = rw (member-org, member-admin) refl
  meets-team c (capability Capability.manage_org) = member-admin
  meets-team c (capability x) = rw (member-team_cap x, member-admin) refl
  meets-team c publication = refl

  module _ (is_authorized : Cedar) (cedar : IsCedar is_authorized) (a : Action) (c : AuthzContext)
      (plain : IsPlain (record { kind = "User"; id = role })) where
    -- On the fixture's workflow the engine never fails, and allows what the role is granted.
    pub authorize-workflow :
        applies_to a "Workflow" ≡ true
        → (is_engine_error (
              authorize is_authorized load_policies
                (record { kind = "User"; id = role })
                a
                workflow_ref
                slice
                c)
            ≡ false)
          × (is_allowed (
                authorize is_authorized load_policies
                  (record { kind = "User"; id = role })
                  a
                  workflow_ref
                  slice
                  c)
              ≡ (grants role in_org
                    (published exported visibility password_protected c.password_verified in_org)
                    (need a)
                  && key_allows c a))
    unfolding build_slice rule key_permits org_of
    authorize-workflow applies =
        let (sound, seen) =
          authorize-rule is_authorized cedar a workflow_ref the_workflow slice c slice-IsSlice
            (unfold find_resource resource_ref ref_eq in refl) applies plain
            (unfold lacks in (refl, refl, refl)) in
        (sound, seen ∙ ap (λ b. b && key_allows c a) (meets-workflow c (need a)))

    -- The same on the fixture's team.
    pub authorize-team :
        applies_to a "Team" ≡ true
        → (is_engine_error (
              authorize is_authorized load_policies
                (record { kind = "User"; id = role })
                a
                team_ref
                slice
                c)
            ≡ false)
          × (is_allowed (
                authorize is_authorized load_policies
                  (record { kind = "User"; id = role })
                  a
                  team_ref
                  slice
                  c)
              ≡ (grants role in_org false (need a) && key_allows c a))
    unfolding build_slice rule key_permits org_of
    authorize-team applies =
        let (sound, seen) =
          authorize-rule is_authorized cedar a team_ref the_team slice c slice-IsSlice
            (unfold find_resource resource_ref ref_eq in refl) applies plain
            (unfold lacks in (refl, refl, refl)) in
        (sound, seen ∙ ap (λ b. b && key_allows c a) (meets-team c (need a)))
