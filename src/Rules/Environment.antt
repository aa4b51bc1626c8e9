-- ===== src/Rules/Environment.antt =====
-- The environment that a request on a well-formed slice is decided in.
use stackai_authz_service.Prelude.{
  ℕ, suc, String, ◌≡◌, refl, sym, ◌∙◌, ap, subst, fun_ext, Bool, true, false, some, List, [], ◌⊎◌,
  ◌∷◌, ◌++◌, map, All, All-append, arith, ◌==◌, eq_iff, find-append_none, find_holds, All-find,
  find-append_some, append_assoc, inl, inr, if◌then◌else◌,
}
use stackai_authz_service.Action.{Action, action_value}
use stackai_authz_service.Entities.{
  EntityRef, ref_eq, mem_ref, Value, CedarEntity, bare, principal_to_cedar, Resource, workflow,
  team, org, resource_ref, resource_to_cedar, EntitySlice, find_resource, missing_orgs,
}
use stackai_authz_service.Cedar.{action_ref, Env, env_of, parents_of, attrs_of, reaches}
use stackai_authz_service.Cedar.Hierarchy.{
  ref_eq_refl, ref_eq_kind, lookup_uid, lookup_uid_other, parents_of_found, attrs_of_found,
  AreLeaves, parents_of_leaf, reaches_two,
}
use stackai_authz_service.Engine.{AuthzContext, action_parents, action_entities, context_to_cedar}
use stackai_authz_service.Rules.Refinement.{view_of, kind_of}
use stackai_authz_service.Rules.Slices.{
  HasKind, IsSlice, member_of_slice, action_entities-kind, bares-kind, bares-AreLeaves,
  AreLeaves-other, resources-AreLeaves, lookup_uid-resources, declared, all_entities,
  slice_to_cedar-declared, missing_orgs-AreLeaves, principal-uid, principal-parents, steps,
}

module _ (s : EntitySlice) (valid : IsSlice s) where
  -- Capabilities and organizations have no parents.
  all_entities-AreLeaves :
      (k : String)
      → ("Action" == k) ≡ false
      → ("User" == k) ≡ false
      → (k == "Team") ≡ false
      → AreLeaves k (all_entities s)
  all_entities-AreLeaves k a u t = rw (slice_to_cedar-declared s) (
      All-append _ action_entities _
        (AreLeaves-other k "Action" action_entities action_entities-kind a)
        (All-append _ (declared s) _
          (All-append _ (map (λ c. bare c) s.caps) _ (bares-AreLeaves k s.caps) (
            λ q. absurd (ground (arith, valid.user, principal-uid s.principal, eq_iff "User" k)),
            resources-AreLeaves k s.resources valid.resources t,
          ))
          (missing_orgs-AreLeaves k (declared s) s.principal.orgs)))

  -- A lookup of a user, a workflow, a team or an organization passes over the actions and the
  -- capabilities.
  lookup_uid_skip :
      (r : EntityRef)
      → ("Action" == r.kind) ≡ false
      → ("Cap" == r.kind) ≡ false
      → lookup_uid r (all_entities s)
        ≡ lookup_uid r (
            (principal_to_cedar s.principal ∷ map resource_to_cedar s.resources)
            ++ missing_orgs (declared s) s.principal.orgs)
  lookup_uid_skip r a c = rw (slice_to_cedar-declared s) (
      find-append_none _ action_entities _
        (lookup_uid_other r "Action" action_entities action_entities-kind a)
      ∙ rw append_assoc (
          find-append_none _ (map (λ x. bare x) s.caps) _
            (lookup_uid_other r "Cap" _ (bares-kind "Cap" s.caps valid.caps) c)))

  -- The principal is found with its capabilities and organizations as parents.
  parents_of-principal :
      parents_of (all_entities s) s.principal.ref ≡ s.principal.capabilities ++ s.principal.orgs
  parents_of-principal =
      parents_of_found (all_entities s) s.principal.ref (principal_to_cedar s.principal) (
        lookup_uid_skip s.principal.ref (rw valid.user) (rw valid.user)
        ∙ rw (principal-uid s.principal, ref_eq_refl s.principal.ref))
      ∙ principal-parents s.principal

  -- A resource of the slice is found with its attributes.
  attrs_of-resource :
      (r : EntityRef) (e : Resource)
      → find_resource r s.resources ≡ some e
      → ("Action" == r.kind) ≡ false
      → ("Cap" == r.kind) ≡ false
      → ("User" == r.kind) ≡ false
      → attrs_of (all_entities s) r ≡ (resource_to_cedar e).attrs
  attrs_of-resource r e h a c u = attrs_of_found (all_entities s) r (resource_to_cedar e) (
      lookup_uid_skip r a c
      ∙ find-append_some (λ (x : CedarEntity). ref_eq x.uid r)
          (principal_to_cedar s.principal ∷ map resource_to_cedar s.resources)
          (missing_orgs (declared s) s.principal.orgs) (resource_to_cedar e)
          (find-append_none (λ (x : CedarEntity). ref_eq x.uid r)
              (principal_to_cedar s.principal ∷ []) (map resource_to_cedar s.resources)
              (lookup_uid_other r "User" (principal_to_cedar s.principal ∷ [])
                (rw (principal-uid s.principal) valid.user, tt) u)
            ∙ lookup_uid-resources r s.resources e h))

  parents_of-action :
      (a : Action) → parents_of (all_entities s) (action_ref (action_value a)) ≡ action_parents a
  unfolding action_entities action_value parents_of
  parents_of-action Action.org_add_user = refl
  parents_of-action _ = refl

  parents_of-group :
      (g : String)
      → (g ≡ "Governance") ⊎ (g ≡ "OrgAdministrable")
      → parents_of (all_entities s) (action_ref g) ≡ []
  unfolding action_entities parents_of
  parents_of-group g (inl h) = rw h
  parents_of-group g (inr h) = rw h

  leaf_kinds :
      (k : String) (rs : List EntityRef)
      → AreLeaves k (all_entities s)
      → All (HasKind k) rs
      → All (λ r. parents_of (all_entities s) r ≡ []) rs
  leaf_kinds k [] leaves h = tt
  leaf_kinds k (r ∷ rs) leaves (h, hs) = (
    parents_of_leaf (all_entities s) r (subst (λ j. AreLeaves j (all_entities s)) (sym h) leaves),
    leaf_kinds k rs leaves hs,
  )

  group_leaves :
      (governs administers : Bool)
      → All
          (λ r. parents_of (all_entities s) r ≡ [])
          ((if governs then action_ref "Governance" ∷ [] else [])
            ++ (if administers then action_ref "OrgAdministrable" ∷ [] else []))
  group_leaves true true = (
    parents_of-group "Governance" (inl refl),
    (parents_of-group "OrgAdministrable" (inr refl), tt),
  )
  group_leaves true false = (parents_of-group "Governance" (inl refl), tt)
  group_leaves false true = (parents_of-group "OrgAdministrable" (inr refl), tt)
  group_leaves false false = tt

  action-leaves : (a : Action) → All (λ r. parents_of (all_entities s) r ≡ []) (action_parents a)
  unfolding action_parents
  action-leaves a = group_leaves _ _

  -- The principal's ancestors, as the hierarchy of the request gives them.
  reaches-principal :
      (n : ℕ) (t : EntityRef)
      → reaches (suc n) (all_entities s) s.principal.ref t ≡ member_of_slice s t
  unfolding member_of_slice
  reaches-principal n t =
      reaches_two n (all_entities s) s.principal.ref t (
        rw parents_of-principal (
          All-append (λ r. parents_of (all_entities s) r ≡ []) s.principal.capabilities
            s.principal.orgs
            (leaf_kinds "Cap" s.principal.capabilities (all_entities-AreLeaves "Cap" refl refl refl)
              valid.capabilities)
            (leaf_kinds "Organization" s.principal.orgs
              (all_entities-AreLeaves "Organization" refl refl refl) valid.orgs)))
      ∙ ap (λ ps. mem_ref t (s.principal.ref ∷ ps)) parents_of-principal

  reaches-action :
      (n : ℕ) (a : Action) (t : EntityRef)
      → reaches (suc n) (all_entities s) (action_ref (action_value a)) t
        ≡ mem_ref t (action_ref (action_value a) ∷ action_parents a)
  reaches-action n a t =
      reaches_two n (all_entities s) (action_ref (action_value a)) t
        (rw (parents_of-action a) (action-leaves a))
      ∙ ap (λ ps. mem_ref t (action_ref (action_value a) ∷ ps)) (parents_of-action a)

  -- A resource that the slice holds has the type of its class.
  pub found-kind :
      (r : EntityRef) (e : Resource) → find_resource r s.resources ≡ some e → r.kind ≡ kind_of e
  unfolding find_resource
  found-kind r e h =
      sym (
        ref_eq_kind (resource_ref e) r
          (find_holds (λ x. ref_eq (resource_ref x) r) s.resources e h))
      ∙ All-find (λ x. (resource_ref x).kind ≡ kind_of x) (λ x. ref_eq (resource_ref x) r)
          s.resources e valid.resources h

  kind_of-distinct :
      (e : Resource)
      → (("Action" == kind_of e) ≡ false)
        × (("Cap" == kind_of e) ≡ false)
        × (("User" == kind_of e) ≡ false)
  kind_of-distinct (workflow w) = (refl, refl, refl)
  kind_of-distinct (team t) = (refl, refl, refl)
  kind_of-distinct (org o) = (refl, refl, refl)

  Env-path :
      (act : EntityRef) (context : List (String × Value)) {x y : List (String × Value)}
      {f g f' g' : EntityRef → Bool}
      → x ≡ y
      → f ≡ f'
      → g ≡ g'
      → ◌≡◌ {A = Env}
          (record { action = act; attrs = x; context = context; principal_in = f; action_in = g })
          (record { action = act; attrs = y; context = context; principal_in = f'; action_in = g' })
  Env-path act context p q r = λ i. record {
    action = act;
    attrs = p i;
    context = context;
    principal_in = q i;
    action_in = r i;
  }

  -- The policies see of a request on the slice what `view_of` says.
  pub env_of-slice :
      (c : AuthzContext) (a : Action) (r : EntityRef) (e : Resource)
      → find_resource r s.resources ≡ some e
      → env_of s.principal.ref
          (action_ref (action_value a))
          r
          (context_to_cedar c (some a))
          (all_entities s)
        ≡ view_of (member_of_slice s) c a e
  unfolding env_of view_of action_entities
  env_of-slice c a r e h =
      let (not_action, not_cap, not_user) =
        subst (λ k. (("Action" == k) ≡ false) × (("Cap" == k) ≡ false) × (("User" == k) ≡ false))
          (sym (found-kind r e h)) (kind_of-distinct e) in
      Env-path (action_ref (action_value a)) (context_to_cedar c (some a))
        (attrs_of-resource r e h not_action not_cap not_user)
        (fun_ext (λ t. reaches-principal (steps s) t)) (fun_ext (λ t. reaches-action (steps s) a t))
