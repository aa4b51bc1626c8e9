-- ===== src/Cedar/Hierarchy.antt =====
-- Looking up entities in a list of parts, and the hierarchy where every parent is a leaf.
use stackai_authz_service.Prelude.{
  ℕ, zero, suc, String, ◌≡◌, refl, ap, true, false, ◌||◌, Option, none, some, List, [], ◌∷◌, any,
  find, All, arith, ◌==◌, eq_iff, Bool-cases, inl, inr,
}
use stackai_authz_service.Entities.{EntityRef, ref_eq, mem_ref, CedarEntity}
use stackai_authz_service.Cedar.{parents_of, attrs_of, reaches}

pub ref_eq_refl : (a : EntityRef) → ref_eq a a ≡ true
unfolding ref_eq
ref_eq_refl a = ground (arith, eq_iff a.kind a.kind, eq_iff a.id a.id)

pub ref_eq_iff : (a b : EntityRef) → ref_eq a b ≡ true → a ≡ b
unfolding ref_eq
ref_eq_iff a b h = ground (arith, eq_iff a.kind b.kind, eq_iff a.id b.id)

pub ref_eq_kind : (a b : EntityRef) → ref_eq a b ≡ true → a.kind ≡ b.kind
ref_eq_kind a b h = ap (λ (r : EntityRef). r.kind) (ref_eq_iff a b h)

abbrev pub lookup_uid : EntityRef → List CedarEntity → Option CedarEntity
lookup_uid r entities = find (λ (e : CedarEntity). ref_eq e.uid r) entities

-- A lookup passes over entities of another type.
pub lookup_uid_other :
    (r : EntityRef) (k : String) (entities : List CedarEntity)
    → All (λ (e : CedarEntity). e.uid.kind ≡ k) entities
    → (k == r.kind) ≡ false
    → lookup_uid r entities ≡ none
unfolding ref_eq
lookup_uid_other r k [] h d = refl
lookup_uid_other r k (e ∷ es) (h, hs) d = ground (arith, lookup_uid_other r k es hs d)

pub parents_of_found :
    (entities : List CedarEntity) (r : EntityRef) (e : CedarEntity)
    → lookup_uid r entities ≡ some e
    → parents_of entities r ≡ e.parents
unfolding parents_of
parents_of_found entities r e h = rw (h, parents_of)

pub attrs_of_found :
    (entities : List CedarEntity) (r : EntityRef) (e : CedarEntity)
    → lookup_uid r entities ≡ some e
    → attrs_of entities r ≡ e.attrs
unfolding attrs_of
attrs_of_found entities r e h = rw (h, attrs_of)

-- Every entity of the type `k` has no parents.
abbrev pub AreLeaves : String → List CedarEntity → Type 0
AreLeaves k entities = All (λ (e : CedarEntity). e.uid.kind ≡ k → e.parents ≡ []) entities

pub parents_of_leaf :
    (entities : List CedarEntity) (r : EntityRef)
    → AreLeaves r.kind entities
    → parents_of entities r ≡ []
unfolding parents_of
parents_of_leaf [] r h = refl
parents_of_leaf (e ∷ es) r (h, hs) = elim (Bool-cases (ref_eq e.uid r)) [
  | inl same ↦ rw (same, parents_of) (h (ref_eq_kind e.uid r same))
  | inr other ↦ rw (other, parents_of) (parents_of_leaf es r hs)
]

reaches_leaf :
    (n : ℕ) (entities : List CedarEntity) (a b : EntityRef)
    → parents_of entities a ≡ []
    → reaches n entities a b ≡ ref_eq a b
unfolding reaches
reaches_leaf zero entities a b h = refl
reaches_leaf (suc n) entities a b h = ground arith

reaches_leaves :
    (n : ℕ) (entities : List CedarEntity) (b : EntityRef) (rs : List EntityRef)
    → All (λ r. parents_of entities r ≡ []) rs
    → any (λ r. reaches n entities r b) rs ≡ mem_ref b rs
unfolding mem_ref
reaches_leaves n entities b [] h = refl
reaches_leaves n entities b (r ∷ rs) (h, hs) =
    ground (arith, reaches_leaf n entities r b h, reaches_leaves n entities b rs hs)

-- Where the parents are leaves, the ancestors are the entity itself and its parents.
pub reaches_two :
    (n : ℕ) (entities : List CedarEntity) (a b : EntityRef)
    → All (λ r. parents_of entities r ≡ []) (parents_of entities a)
    → reaches (suc n) entities a b ≡ mem_ref b (a ∷ parents_of entities a)
unfolding reaches mem_ref
reaches_two n entities a b h =
    ap (λ x. ref_eq a b || x) (reaches_leaves n entities b (parents_of entities a) h)
