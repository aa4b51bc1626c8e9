-- ===== src/Provider/Fetched.antt =====
-- The slice that the provider builds is well formed, and what the principal is in on it.
use stackai_authz_service.Prelude.{
  String, ◌≡◌, sym, refl, ap, false, Option, some, List, [], ◌∷◌, ◌++◌, map, All, All-append, arith,
  ◌==◌, eq_iff, subst, >>=-eq-some, some_inj,
}
use stackai_authz_service.Capability.{Capability, all_capabilities}
use stackai_authz_service.Entities.{
  EntityRef, ref_eq, mem_ref, cap_ref, Resource, workflow, team, org, resource_ref, EntitySlice,
}
use stackai_authz_service.Rules.Refinement.{kind_of}
use stackai_authz_service.Rules.Slices.{IsSlice, member_of_slice, HasKind}
use stackai_authz_service.Provider.Refs.{mem_ref-append}
use stackai_authz_service.Provider.{
  key_names, CapMap, CapabilitySlice, Database, WorkflowRow, TeamRow, Memo, ExportRow, refs_of,
  cap_refs, export_of, build_workflow_entity, workflow_entities, build_team_entity,
  build_org_entity, fetch_workflows, fetch_teams, fetch_entities, resource_caps, all_resource_caps,
  org_ids, build_slice, capability_slice, slice_for, wanted,
}

abbrev pub IsTyped : Resource → Type 0
IsTyped e = (resource_ref e).kind ≡ kind_of e

pub cap_ref-kind : (c : Capability) (s i : String) → (cap_ref c s i).kind ≡ "Cap"
unfolding cap_ref
cap_ref-kind c s i = refl

pub caps-kind :
    (s i : String) (caps : List Capability) → All (HasKind "Cap") (map (λ c. cap_ref c s i) caps)
caps-kind s i [] = tt
caps-kind s i (c ∷ cs) = (cap_ref-kind c s i, caps-kind s i cs)

refs_of-kind : (s : String) (m : CapMap) → All (HasKind "Cap") (refs_of s m)
unfolding refs_of
refs_of-kind s [] = tt
refs_of-kind s ((k, caps) ∷ m) =
    All-append (HasKind "Cap") (map (λ c. cap_ref c s k) caps) (refs_of s m) (caps-kind s k caps)
      (refs_of-kind s m)

pub cap_refs-kind : (s : CapabilitySlice) → All (HasKind "Cap") (cap_refs s)
unfolding cap_refs
cap_refs-kind s =
    All-append (HasKind "Cap") (refs_of "team" s.team_caps) (refs_of "org" s.org_caps)
      (refs_of-kind "team" s.team_caps) (refs_of-kind "org" s.org_caps)

resource_caps-kind : (e : Resource) → All (HasKind "Cap") (resource_caps e)
unfolding resource_caps
resource_caps-kind (workflow w) = caps-kind "team" w.team.id all_capabilities
resource_caps-kind (team t) = caps-kind "team" t.ref.id all_capabilities
resource_caps-kind (org o) = tt

all_resource_caps-kind : (es : List Resource) → All (HasKind "Cap") (all_resource_caps es)
unfolding all_resource_caps
all_resource_caps-kind [] = tt
all_resource_caps-kind (e ∷ es) =
    All-append (HasKind "Cap") (resource_caps e) (all_resource_caps es) (resource_caps-kind e)
      (all_resource_caps-kind es)

manage_orgs-kind :
    (os : List String) → All (HasKind "Cap") (map (λ o. cap_ref Capability.manage_org "org" o) os)
manage_orgs-kind [] = tt
manage_orgs-kind (o ∷ os) = (cap_ref-kind Capability.manage_org "org" o, manage_orgs-kind os)

abbrev org_ref : String → EntityRef
org_ref o = record { kind = "Organization"; id = o }

orgs-kind : (os : List String) → All (HasKind "Organization") (map (λ o. org_ref o) os)
orgs-kind [] = tt
orgs-kind (o ∷ os) = (refl, orgs-kind os)

-- Whatever the capability slice, a slice built for a user over typed entities is well formed.
pub build_slice-IsSlice :
    (p : EntityRef) (caps : CapabilitySlice) (es : List Resource)
    → p.kind ≡ "User"
    → All IsTyped es
    → IsSlice (build_slice p caps es)
unfolding build_slice
build_slice-IsSlice p caps es user typed = record {
  user = user;
  caps = All-append (HasKind "Cap") (cap_refs caps) _ (cap_refs-kind caps) (
      All-append (HasKind "Cap") (all_resource_caps es) _ (all_resource_caps-kind es)
        (manage_orgs-kind (org_ids caps es)));
  capabilities = cap_refs-kind caps;
  orgs = orgs-kind _;
  resources = typed;
}

workflow-IsTyped :
    (row : WorkflowRow) (export : Option ExportRow)
    → IsTyped (workflow (build_workflow_entity row export))
unfolding build_workflow_entity resource_ref
workflow-IsTyped row export = refl

workflow_entities-IsTyped :
    (rows : List WorkflowRow) (es : List Resource)
    → workflow_entities rows ≡ some es
    → All IsTyped es
unfolding workflow_entities
workflow_entities-IsTyped [] [] h = tt
workflow_entities-IsTyped [] (e ∷ es) h = absurd (cc)
workflow_entities-IsTyped (row ∷ rows) es h =
    let (export, _, h') = >>=-eq-some (export_of row.exports) _ es h in
    let (rest, fetched, h'') = >>=-eq-some (workflow_entities rows) _ es h' in
    subst (All IsTyped) (some_inj (workflow (build_workflow_entity row export) ∷ rest) es h'')
      (workflow-IsTyped row export, workflow_entities-IsTyped rows rest fetched)

teams-IsTyped : (rows : List TeamRow) → All IsTyped (map (λ row. team (build_team_entity row)) rows)
unfolding build_team_entity resource_ref
teams-IsTyped [] = tt
teams-IsTyped (row ∷ rows) = (refl, teams-IsTyped rows)

orgs-IsTyped : (os : List String) → All IsTyped (map (λ o. org (build_org_entity o)) os)
unfolding build_org_entity resource_ref
orgs-IsTyped [] = tt
orgs-IsTyped (o ∷ os) = (refl, orgs-IsTyped os)

module _ (db : Database) where
  fetch_workflows-IsTyped :
      (ids : List String) (es : List Resource) → fetch_workflows db ids ≡ some es → All IsTyped es
  unfolding fetch_workflows
  fetch_workflows-IsTyped [] es h = subst (All IsTyped) (some_inj [] es h) tt
  fetch_workflows-IsTyped (i ∷ is) es h = workflow_entities-IsTyped (db.workflows_in (i ∷ is)) es h

  fetch_teams-IsTyped : (ids : List String) → All IsTyped (fetch_teams db ids)
  unfolding fetch_teams
  fetch_teams-IsTyped [] = tt
  fetch_teams-IsTyped (i ∷ is) = teams-IsTyped (db.teams_in (i ∷ is))

  -- Every fetched entity has the type of its class.
  pub fetch_entities-IsTyped :
      (rs : List EntityRef) (es : List Resource) → fetch_entities db rs ≡ some es → All IsTyped es
  unfolding fetch_entities
  fetch_entities-IsTyped rs es h =
      let orgs = map (λ o. org (build_org_entity o)) (wanted "Organization" rs) in
      let teams = fetch_teams db (wanted "Team" rs) in
      let (ws, fetched, h') =
        >>=-eq-some (fetch_workflows db (wanted "Workflow" rs)) (λ ws. some (ws ++ (teams ++ orgs)))
          es h in
      subst (All IsTyped) (some_inj (ws ++ (teams ++ orgs)) es h') (
        All-append IsTyped ws (teams ++ orgs)
          (fetch_workflows-IsTyped (wanted "Workflow" rs) ws fetched)
          (All-append IsTyped teams orgs (fetch_teams-IsTyped (wanted "Team" rs))
            (orgs-IsTyped (wanted "Organization" rs))))

  -- A slice that the provider returns was built from the capabilities of the principal and the
  -- fetched entities.
  pub slice_for-built :
      (memo after : Memo) (p : EntityRef) (rs : List EntityRef) (s : EntitySlice)
      → slice_for db memo p rs ≡ some (s, after)
      → (caps : CapabilitySlice) × (es : List Resource) × (capability_slice db memo p.id
          ≡ some (caps, after))
        × (fetch_entities db rs ≡ some es)
        × (build_slice p caps es ≡ s)
  unfolding slice_for
  slice_for-built memo after p rs s h =
      let ((caps, memo'), known, h') = >>=-eq-some (capability_slice db memo p.id) _ (s, after) h in
      let (es, fetched, h'') = >>=-eq-some (fetch_entities db rs) _ (s, after) h' in
      let same = some_inj (build_slice p caps es, memo') (s, after) h'' in
      (
        caps,
        es,
        subst (λ m. capability_slice db memo p.id ≡ some (caps, m))
            (ap (λ (x : EntitySlice × Memo). x.1) same) known,
        fetched,
        ap (λ (x : EntitySlice × Memo). x.0) same,
      )

  -- Every slice that the provider returns for a user is well formed.
  pub slice_for-IsSlice :
      (memo after : Memo) (p : EntityRef) (rs : List EntityRef) (s : EntitySlice)
      → p.kind ≡ "User"
      → slice_for db memo p rs ≡ some (s, after)
      → IsSlice s
  slice_for-IsSlice memo after p rs s user h =
      let (caps, es, _, fetched, built) = slice_for-built memo after p rs s h in
      subst IsSlice built
        (build_slice-IsSlice p caps es user (fetch_entities-IsTyped rs es fetched))

other-orgs :
    (t : EntityRef) (os : List String)
    → t.kind ≡ "Cap"
    → mem_ref t (map (λ o. org_ref o) os) ≡ false
unfolding mem_ref
other-orgs t [] h = refl
other-orgs t (o ∷ os) h =
    ground (arith, eq_iff "Organization" t.kind, eq_iff "Organization" "Cap", other-orgs t os h)

pub other-kind : (a b : EntityRef) → (a.kind == b.kind) ≡ false → ref_eq a b ≡ false
unfolding ref_eq
other-kind a b h = ground arith

-- On the built slice a user is in a capability entity exactly if the capability slice holds it.
pub member-cap :
    (p : EntityRef) (caps : CapabilitySlice) (es : List Resource) (c : Capability) (s i : String)
    → p.kind ≡ "User"
    → member_of_slice (build_slice p caps es) (cap_ref c s i)
      ≡ mem_ref (cap_ref c s i) (cap_refs caps)
unfolding member_of_slice build_slice
member-cap p caps es c s i user = ground (
  arith,
  eq_iff p.kind (cap_ref c s i).kind,
  eq_iff "User" "Cap",
  mem_ref-append (cap_ref c s i) (cap_refs caps) (map (λ o. org_ref o) (key_names caps.org_caps)),
  other-orgs (cap_ref c s i) (key_names caps.org_caps),
  cap_ref-kind c s i,
  other-kind p (cap_ref c s i),
)

-- The principal of a returned slice is the one that was asked for.
pub slice_for-principal :
    (db : Database) (memo after : Memo) (p : EntityRef) (rs : List EntityRef) (s : EntitySlice)
    → slice_for db memo p rs ≡ some (s, after)
    → s.principal.ref ≡ p
unfolding build_slice
slice_for-principal db memo after p rs s h =
    let (caps, es, _, _, built) = slice_for-built db memo after p rs s h in
    sym (ap (λ (x : EntitySlice). x.principal.ref) built)
