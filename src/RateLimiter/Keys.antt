-- ===== src/RateLimiter/Keys.antt =====
-- A dict whose keys are pairs of texts, as an association list.
use stackai_authz_service.Prelude.{
  ℕ, String, ◌≡◌, refl, Bool, ◌&&◌, Option, none, some, List, [], ◌∷◌, arith, if◌then◌else◌, ◌==◌,
  eq_iff, true,
}

-- The pair of a workflow id and a client address.
pub record Key : Type 0 where
  pub workflow_id : String
  pub client : String

unfoldable pub key_eq : Key → Key → Bool
key_eq a b = a.workflow_id == b.workflow_id && a.client == b.client

pub key_eq_iff : (a b : Key) → key_eq a b ≡ true → a ≡ b
unfolding key_eq
key_eq_iff a b h = ground (arith, eq_iff a.workflow_id b.workflow_id, eq_iff a.client b.client)

pub key_eq_refl : (a : Key) → key_eq a a ≡ true
unfolding key_eq
key_eq_refl a = ground (arith, eq_iff a.workflow_id a.workflow_id, eq_iff a.client a.client)

abbrev pub Dict : Type 0
Dict = List (Key × ℕ)

abbrev pub empty : Dict
empty = []

-- `d.get(k)`
unfoldable pub get : Key → Dict → Option ℕ
unfolding key_eq
get k [] = none
get k ((j, v) ∷ d) = let rest = get k d in if key_eq j k then some v else rest

-- `d[k] = v`
unfoldable pub put : Key → ℕ → Dict → Dict
unfolding key_eq
put k v [] = (k, v) ∷ []
put k v ((j, w) ∷ d) = let rest = put k v d in if key_eq j k then (k, v) ∷ d else (j, w) ∷ rest

-- `d.pop(k, None)`; every entry of the key is left out, where a dict has one at most.
unfoldable pub pop : Key → Dict → Dict
unfolding key_eq
pop k [] = []
pop k ((j, w) ∷ d) = let rest = pop k d in if key_eq j k then rest else (j, w) ∷ rest

pub get-put :
    (k j : Key) (v : ℕ) (d : Dict) → get j (put k v d) ≡ (if key_eq k j then some v else get j d)
unfolding get put
get-put k j v [] = refl
get-put k j v ((i, w) ∷ d) = ground (
  arith,
  get-put k j v d,
  eq_iff i.workflow_id k.workflow_id,
  eq_iff i.client k.client,
  eq_iff i.workflow_id j.workflow_id,
  eq_iff i.client j.client,
  eq_iff k.workflow_id j.workflow_id,
  eq_iff k.client j.client,
)

pub get-pop : (k j : Key) (d : Dict) → get j (pop k d) ≡ (if key_eq k j then none else get j d)
unfolding get pop
get-pop k j [] = ground arith
get-pop k j ((i, w) ∷ d) = ground (
  arith,
  get-pop k j d,
  eq_iff i.workflow_id k.workflow_id,
  eq_iff i.client k.client,
  eq_iff i.workflow_id j.workflow_id,
  eq_iff i.client j.client,
  eq_iff k.workflow_id j.workflow_id,
  eq_iff k.client j.client,
)
