-- ===== src/Entities.antt =====
-- packages/authz-core/src/authz_core/entities.py: entity references, the entities of one decision
-- and their marshalling for Cedar. A `frozenset` is a list, read through membership only; a dict of
-- capability references that has every capability as a key is a function.
use stackai_authz_service.Prelude.{
  String, Bool, ◌&&◌, not, List, [], ◌∷◌, ◌++◌, map, any, keep, Option, find, ◌==◌, cat,
}
use stackai_authz_service.Capability.{Capability, capability_value, attribute}

-- The field `type` is called `kind`.
pub record EntityRef : Type 0 where
  pub kind : String
  pub id : String

-- `EntityRef` is a frozen dataclass: `==` compares the fields.
unfoldable pub ref_eq : EntityRef → EntityRef → Bool
ref_eq a b = a.kind == b.kind && a.id == b.id

-- `e in refs`
unfoldable pub mem_ref : EntityRef → List EntityRef → Bool
unfolding ref_eq
mem_ref e refs = any (λ x. ref_eq x e) refs

-- `EntityRef.literal`
unfoldable pub literal : EntityRef → String
literal r = cat r.kind (cat "::\"" (cat r.id "\""))

unfoldable pub cap_ref : Capability → String → String → EntityRef
unfolding capability_value
cap_ref c scope_type scope_id = record {
  kind = "Cap";
  id = cat (capability_value c) (cat ":" (cat scope_type (cat ":" scope_id)));
}

-- An attribute value: `wrapped()` makes an entity reference.
pub data Value : Type 0 where
  entity : EntityRef → Value
  bool : Bool → Value
  text : String → Value
  texts : List String → Value

pub record CedarEntity : Type 0 where
  pub uid : EntityRef
  pub attrs : List (String × Value)
  pub parents : List EntityRef

-- {"uid": ..., "attrs": {}, "parents": []}
abbrev pub bare : EntityRef → CedarEntity
bare r = record { uid = r; attrs = []; parents = [] }

pub record PrincipalEntity : Type 0 where
  pub ref : EntityRef
  pub capabilities : List EntityRef
  pub orgs : List EntityRef

unfoldable pub principal_to_cedar : PrincipalEntity → CedarEntity
principal_to_cedar p = record { uid = p.ref; attrs = []; parents = p.capabilities ++ p.orgs }

-- `_cap_attrs`
unfoldable pub cap_attrs : (Capability → EntityRef) → List Capability → List (String × Value)
unfolding attribute
cap_attrs caps wanted = map (λ c. (attribute c, entity (caps c))) wanted

pub record WorkflowEntity : Type 0 where
  pub ref : EntityRef
  pub org : EntityRef
  pub team : EntityRef
  pub capabilities : Capability → EntityRef
  pub exported : Bool
  pub visibility : String
  pub password_protected : Bool

abbrev pub workflow_attrs : List Capability
workflow_attrs =
    Capability.view ∷ Capability.run ∷ Capability.edit ∷ Capability.export
    ∷ Capability.protect_export ∷ Capability.delete ∷ []

unfoldable pub workflow_to_cedar : WorkflowEntity → CedarEntity
unfolding cap_attrs cap_ref
workflow_to_cedar w = record {
  uid = w.ref;
  parents = [];
  attrs =
      ("org", entity w.org)
      ∷ ("team", entity w.team)
      ∷ ("org_admins", entity (cap_ref Capability.manage_org "org" w.org.id))
      ∷ (cap_attrs w.capabilities workflow_attrs
          ++ (("exported", bool w.exported)
              ∷ ("visibility", text w.visibility)
              ∷ ("password_protected", bool w.password_protected)
              ∷ []));
}

pub record TeamEntity : Type 0 where
  pub ref : EntityRef
  pub org : EntityRef
  pub capabilities : Capability → EntityRef

abbrev pub team_attrs : List Capability
team_attrs = Capability.view ∷ Capability.edit ∷ Capability.manage_members ∷ Capability.delete ∷ []

unfoldable pub team_to_cedar : TeamEntity → CedarEntity
unfolding cap_attrs cap_ref
team_to_cedar t = record {
  uid = t.ref;
  parents = t.org ∷ [];
  attrs =
      ("org", entity t.org)
      ∷ ("org_admins", entity (cap_ref Capability.manage_org "org" t.org.id))
      ∷ cap_attrs t.capabilities team_attrs;
}

pub record OrgEntity : Type 0 where
  pub ref : EntityRef
  pub capabilities : Capability → EntityRef

abbrev pub org_attrs : List Capability
org_attrs = Capability.create_team ∷ Capability.manage_roles ∷ Capability.manage_api_keys ∷ []

unfoldable pub org_to_cedar : OrgEntity → CedarEntity
unfolding cap_attrs cap_ref
org_to_cedar o = record {
  uid = o.ref;
  parents = [];
  attrs =
      ("org", entity o.ref)
      ∷ ("org_admins", entity (cap_ref Capability.manage_org "org" o.ref.id))
      ∷ cap_attrs o.capabilities org_attrs;
}

-- `WorkflowEntity | TeamEntity | OrgEntity`
pub data Resource : Type 0 where
  workflow : WorkflowEntity → Resource
  team : TeamEntity → Resource
  org : OrgEntity → Resource

unfoldable pub resource_ref : Resource → EntityRef
resource_ref (workflow w) = w.ref
resource_ref (team t) = t.ref
resource_ref (org o) = o.ref

unfoldable pub resource_to_cedar : Resource → CedarEntity
unfolding workflow_to_cedar team_to_cedar org_to_cedar
resource_to_cedar (workflow w) = workflow_to_cedar w
resource_to_cedar (team t) = team_to_cedar t
resource_to_cedar (org o) = org_to_cedar o

pub record EntitySlice : Type 0 where
  pub principal : PrincipalEntity
  pub resources : List Resource
  pub caps : List EntityRef

-- The first resource of a slice with the reference `r`.
unfoldable pub find_resource : EntityRef → List Resource → Option Resource
unfolding resource_ref ref_eq
find_resource r resources = find (λ e. ref_eq (resource_ref e) r) resources

-- The organizations of the principal that no entity of the list declares yet.
unfoldable pub missing_orgs : List CedarEntity → List EntityRef → List CedarEntity
unfolding mem_ref
missing_orgs entities orgs =
    map (λ o. bare o) (keep (λ o. not (mem_ref o (map (λ (e : CedarEntity). e.uid) entities))) orgs)

-- `EntitySlice.to_cedar`. `seen` is fixed before the loop over the organizations starts.
unfoldable pub slice_to_cedar : EntitySlice → List CedarEntity
unfolding principal_to_cedar resource_to_cedar missing_orgs
slice_to_cedar s =
    let entities =
      map (λ c. bare c) s.caps
      ++ (principal_to_cedar s.principal ∷ map resource_to_cedar s.resources) in
    entities ++ missing_orgs entities s.principal.orgs
