-- ===== src/Rules/Slices.antt =====
-- What a well-formed slice makes of a Cedar request: the view on which the access rules are decided.
use stackai_authz_service.Prelude.{
  length, ℕ, suc, String, ◌≡◌, refl, sym, ◌∙◌, ap, Bool, false, some, List, [], ◌∷◌, ◌++◌, map, All,
  arith, ◌==◌, eq_iff,
}
use stackai_authz_service.Action.{all_actions}
use stackai_authz_service.Entities.{
  EntityRef, mem_ref, CedarEntity, bare, PrincipalEntity, principal_to_cedar, Resource, workflow,
  team, org, resource_ref, resource_to_cedar, EntitySlice, find_resource, missing_orgs,
  slice_to_cedar,
}
use stackai_authz_service.Cedar.Hierarchy.{lookup_uid, AreLeaves}
use stackai_authz_service.Engine.{action_entity, action_entities}
use stackai_authz_service.Rules.Refinement.{kind_of}

abbrev pub HasKind : String → EntityRef → Type 0
HasKind k r = r.kind ≡ k

-- Every reference of the slice has the type of its place.
pub record IsSlice (s : EntitySlice) : Type 0 where
  pub user : s.principal.ref.kind ≡ "User"
  pub caps : All (HasKind "Cap") s.caps
  pub capabilities : All (HasKind "Cap") s.principal.capabilities
  pub orgs : All (HasKind "Organization") s.principal.orgs
  pub resources : All (λ e. (resource_ref e).kind ≡ kind_of e) s.resources

-- The principal is in an entity: it is the entity, holds it as a capability, or belongs to it.
unfoldable pub member_of_slice : EntitySlice → EntityRef → Bool
unfolding mem_ref
member_of_slice s t = mem_ref t (s.principal.ref ∷ (s.principal.capabilities ++ s.principal.orgs))

All-map {ℓ κ} :
    {A : Type ℓ} {B : Type ℓ} (P : B → Type κ) (f : A → B) (xs : List A)
    → ((a : A) → P (f a))
    → All P (map f xs)
All-map P f [] h = tt
All-map P f (x ∷ xs) h = (h x, All-map P f xs h)

pub action_entities-kind : All (λ (e : CedarEntity). e.uid.kind ≡ "Action") action_entities
unfolding action_entities
action_entities-kind = (
  refl,
  (
    refl,
    All-map (λ (e : CedarEntity). e.uid.kind ≡ "Action") (λ a. action_entity a) all_actions
        (λ a. refl),
  ),
)

pub bares-kind :
    (k : String) (rs : List EntityRef)
    → All (HasKind k) rs
    → All (λ (e : CedarEntity). e.uid.kind ≡ k) (map (λ r. bare r) rs)
bares-kind k [] h = tt
bares-kind k (r ∷ rs) (h, hs) = (h, bares-kind k rs hs)

pub bares-AreLeaves : (k : String) (rs : List EntityRef) → AreLeaves k (map (λ r. bare r) rs)
bares-AreLeaves k [] = tt
bares-AreLeaves k (r ∷ rs) = (λ _. refl, bares-AreLeaves k rs)

-- Entities of one type are leaves for any other type.
pub AreLeaves-other :
    (k j : String) (entities : List CedarEntity)
    → All (λ (e : CedarEntity). e.uid.kind ≡ j) entities
    → (j == k) ≡ false
    → AreLeaves k entities
AreLeaves-other k j [] h d = tt
AreLeaves-other k j (e ∷ es) (h, hs) d =
    (λ q. ground (arith, eq_iff j k), AreLeaves-other k j es hs d)

pub resource-leaf :
    (k : String) (e : Resource)
    → (resource_ref e).kind ≡ kind_of e
    → (k == "Team") ≡ false
    → (resource_ref e).kind ≡ k
    → (resource_to_cedar e).parents ≡ []
unfolding resource_to_cedar resource_ref
resource-leaf k (workflow w) h d q = refl
resource-leaf k (team t) h d q = ground (arith, eq_iff k "Team")
resource-leaf k (org o) h d q = refl

pub resource-uid : (e : Resource) → (resource_to_cedar e).uid ≡ resource_ref e
unfolding resource_to_cedar resource_ref
resource-uid (workflow w) = refl
resource-uid (team t) = refl
resource-uid (org o) = refl

pub resources-AreLeaves :
    (k : String) (es : List Resource)
    → All (λ e. (resource_ref e).kind ≡ kind_of e) es
    → (k == "Team") ≡ false
    → AreLeaves k (map resource_to_cedar es)
resources-AreLeaves k [] h d = tt
resources-AreLeaves k (e ∷ es) (h, hs) d = (
  λ q. resource-leaf k e h d (ap (λ (r : EntityRef). r.kind) (sym (resource-uid e)) ∙ q),
  resources-AreLeaves k es hs d,
)

pub lookup_uid-resources :
    (r : EntityRef) (es : List Resource) (e : Resource)
    → find_resource r es ≡ some e
    → lookup_uid r (map resource_to_cedar es) ≡ some (resource_to_cedar e)
unfolding find_resource
lookup_uid-resources r [] e h = cc
lookup_uid-resources r (x ∷ xs) e h = ground (arith, resource-uid x, lookup_uid-resources r xs e)

-- The entities of the slice, without the organizations that are added at the end.
abbrev pub declared : EntitySlice → List CedarEntity
declared s =
    map (λ c. bare c) s.caps ++ (principal_to_cedar s.principal ∷ map resource_to_cedar s.resources)

-- The entities that a request is evaluated on.
abbrev pub all_entities : EntitySlice → List CedarEntity
all_entities s = action_entities ++ slice_to_cedar s

pub slice_to_cedar-declared :
    (s : EntitySlice) → slice_to_cedar s ≡ declared s ++ missing_orgs (declared s) s.principal.orgs
unfolding slice_to_cedar
slice_to_cedar-declared s = refl

pub missing_orgs-AreLeaves :
    (k : String) (es : List CedarEntity) (os : List EntityRef) → AreLeaves k (missing_orgs es os)
unfolding missing_orgs
missing_orgs-AreLeaves k es os = bares-AreLeaves k _

pub principal-uid : (p : PrincipalEntity) → (principal_to_cedar p).uid ≡ p.ref
unfolding principal_to_cedar
principal-uid p = refl

pub principal-parents :
    (p : PrincipalEntity) → (principal_to_cedar p).parents ≡ p.capabilities ++ p.orgs
unfolding principal_to_cedar
principal-parents p = refl

-- One less than the number of entities of a request.
abbrev pub steps : EntitySlice → ℕ
steps s = suc (length (map (λ a. action_entity a) all_actions ++ slice_to_cedar s))
