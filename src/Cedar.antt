-- ===== src/Cedar.antt =====
-- The boundary to Cedar: the policy language in which policies/*.cedar are written, with the meaning
-- that the language gives to a policy set, and the library call `is_authorized` of cedarpy, which is
-- no code of this repository and stands as a parameter with its documented behaviour as laws.
pub mod Hierarchy
pub mod Reader
use stackai_authz_service.Prelude.{
  ℕ, zero, suc, String, ◌≡◌, Bool, true, false, ◌&&◌, ◌||◌, not, Option, none, some, List, [], map,
  any, find, keep, length, All, is_empty, lookup, mem_text, if◌then◌else◌, ◌>>=◌, ◌==◌, lacks,
}
use stackai_authz_service.Entities.{
  EntityRef, ref_eq, literal, Value, entity, bool, text, texts, CedarEntity,
}

-- The expressions that the policies use; `in` is always asked of the principal.
pub data Expr : Type 0 where
  principal_in : Expr → Expr
  resource_attr context_attr : String → Expr
  context_has : String → Expr
  lit : String → Expr
  equal contains both : Expr → Expr → Expr
  negated : Expr → Expr

pub data Condition : Type 0 where
  always : Condition
  when unless : Expr → Condition

pub data ActionScope : Type 0 where
  any_action : ActionScope
  is_action : String → ActionScope
  in_actions : List String → ActionScope

pub data Effect : Type 0 where
  permit forbid : Effect

-- One `permit` or `forbid`, with its `@id` annotation. No policy restricts principal or resource in
-- its head.
pub record Policy : Type 0 where
  pub id : String
  pub effect : Effect
  pub scope : ActionScope
  pub condition : Condition

-- What a policy reads: whether the principal, and the action, are in an entity of the hierarchy, and
-- the attributes of the resource and of the context.
pub record Env : Type 0 where
  pub action : EntityRef
  pub attrs : List (String × Value)
  pub context : List (String × Value)
  pub principal_in : EntityRef → Bool
  pub action_in : EntityRef → Bool

-- Values of different types are unequal.
value_eq : Value → Value → Bool
value_eq (entity a) (entity b) = ref_eq a b
value_eq (text s) (text t) = s == t
value_eq (bool true) (bool b) = b
value_eq (bool false) (bool b) = not b
value_eq (texts s) (texts t) = any (λ x. mem_text x t) s && any (λ x. mem_text x s) t
value_eq _ _ = false

as_bool : Value → Option Bool
as_bool (bool b) = some b
as_bool _ = none

in_value : Env → Value → Option Value
in_value env (entity b) = some (bool (env.principal_in b))
in_value env _ = none

contains_value : Value → Value → Option Value
contains_value (texts s) (text t) = some (bool (mem_text t s))
contains_value (texts s) _ = some (bool false)
contains_value _ _ = none

has_key : Option Value → Bool
has_key none = false
has_key (some v) = true

-- `none` is an evaluation error: an attribute that is missing, or a value of the wrong type.
unfoldable pub eval : Env → Expr → Option Value
unfolding value_eq as_bool in_value contains_value has_key
eval env (principal_in e) = do x ← eval env e; in_value env x
eval env (resource_attr a) = lookup a env.attrs
eval env (context_attr a) = lookup a env.context
eval env (context_has a) = some (bool (has_key (lookup a env.context)))
eval env (lit s) = some (text s)
eval env (equal a b) = do x ← eval env a; y ← eval env b; some (bool (value_eq x y))
eval env (contains a b) = do x ← eval env a; y ← eval env b; contains_value x y
eval env (both a b) = do
  x ← eval env a
  p ← as_bool x
  let rest = (do y ← eval env b; q ← as_bool y; some (bool q))
  if p then rest else some (bool false)
eval env (negated a) = do x ← eval env a; p ← as_bool x; some (bool (not p))

unfoldable pub holds : Env → Condition → Option Bool
unfolding eval as_bool
holds env always = some true
holds env (when e) = do x ← eval env e; as_bool x
holds env (unless e) = do x ← eval env e; p ← as_bool x; some (not p)

abbrev pub action_ref : String → EntityRef
action_ref name = record { kind = "Action"; id = name }

unfoldable pub in_scope : Env → ActionScope → Bool
unfolding ref_eq
in_scope env any_action = true
in_scope env (is_action name) = ref_eq env.action (action_ref name)
in_scope env (in_actions names) = any (λ n. env.action_in (action_ref n)) names

-- `some true`: the policy is satisfied; `none`: it is skipped with an error.
unfoldable pub verdict : Env → Policy → Option Bool
unfolding holds in_scope
verdict env p =
    let result = holds env p.condition in if in_scope env p.scope then result else some false

abbrev is_some_true : Option Bool → Bool
is_some_true (some b) = b
is_some_true none = false

abbrev is_none : Option Bool → Bool
is_none none = true
is_none (some b) = false

abbrev is_permit : Effect → Bool
is_permit permit = true
is_permit forbid = false

unfoldable pub errored : Env → List Policy → Bool
unfolding verdict
errored env policies = any (λ p. is_none (verdict env p)) policies

unfoldable pub permitted : Env → List Policy → Bool
unfolding verdict
permitted env policies =
    any (λ (p : Policy). is_permit p.effect && is_some_true (verdict env p)) policies

unfoldable pub forbidden : Env → List Policy → Bool
unfolding verdict
forbidden env policies =
    any (λ (p : Policy). not (is_permit p.effect) && is_some_true (verdict env p)) policies

-- A request is allowed if some permit is satisfied and no forbid is. A policy with an error counts
-- as not satisfied.
unfoldable pub allowed : Env → List Policy → Bool
unfolding permitted forbidden
allowed env policies = permitted env policies && not (forbidden env policies)

-- The policies that determine the decision: the satisfied forbids if there are any, else the
-- satisfied permits.
unfoldable pub determining : Env → List Policy → List String
unfolding verdict forbidden
determining env policies =
    let forbids = forbidden env policies in
    map (λ (p : Policy). p.id)
      (keep
        (λ (p : Policy).
          (if forbids then not (is_permit p.effect) else is_permit p.effect)
          && is_some_true (verdict env p))
        policies)

unfoldable pub parents_of : List CedarEntity → EntityRef → List EntityRef
unfolding ref_eq
parents_of entities r = elim (find (λ (e : CedarEntity). ref_eq e.uid r) entities) [
  | none ↦ []
  | some e ↦ e.parents
]

unfoldable pub attrs_of : List CedarEntity → EntityRef → List (String × Value)
unfolding ref_eq
attrs_of entities r = elim (find (λ (e : CedarEntity). ref_eq e.uid r) entities) [
  | none ↦ []
  | some e ↦ e.attrs
]

-- The reflexive and transitive closure of the parents, at most `n` steps up the hierarchy. As many
-- steps as there are entities reach every ancestor.
unfoldable pub reaches : ℕ → List CedarEntity → EntityRef → EntityRef → Bool
unfolding ref_eq parents_of
reaches zero entities a b = ref_eq a b
reaches (suc n) entities a b =
    ref_eq a b || any (λ p. reaches n entities p b) (parents_of entities a)

unfoldable pub env_of :
    EntityRef → EntityRef → EntityRef → List (String × Value) → List CedarEntity → Env
unfolding attrs_of reaches
env_of p a r context entities = record {
  action = a;
  attrs = attrs_of entities r;
  context = context;
  principal_in = reaches (length entities) entities p;
  action_in = reaches (length entities) entities a;
}

-- The argument and the result of cedarpy's `is_authorized`.
pub record CedarRequest : Type 0 where
  pub principal : String
  pub action : String
  pub resource : String
  pub context : List (String × Value)

pub record CedarResult : Type 0 where
  pub allowed : Bool
  pub errors : List String
  pub reasons : List String
  pub annotations : List (String × String)

abbrev pub Cedar : Type 0
Cedar = CedarRequest → List Policy → List CedarEntity → CedarResult

-- The literal of such a reference is read back by Cedar as the reference: the type has no colon, and
-- the id neither a quote nor a backslash.
abbrev pub IsPlain : EntityRef → Type 0
IsPlain r = (lacks b':' r.kind ≡ true) × (lacks 0x22 r.id ≡ true) × (lacks 0x5c r.id ≡ true)

abbrev pub request : EntityRef → EntityRef → EntityRef → List (String × Value) → CedarRequest
request p a r context = record {
  principal = literal p;
  action = literal a;
  resource = literal r;
  context = context;
}

-- A reason is the internal id of a policy that determines the decision, and the annotations map it
-- to the policy's `@id`.
abbrev pub Names : CedarResult → List String → String → Type 0
Names result ids reason =
    (id : String) × (lookup reason result.annotations ≡ some id) × (mem_text id ids ≡ true)

-- cedarpy implements the meaning of the language on well-written references.
pub record IsCedar (is_authorized : Cedar) : Type 0 where
  pub allowed_law :
      (p a r : EntityRef) (context : List (String × Value)) (policies : List Policy)
      (entities : List CedarEntity)
      → IsPlain p
      → IsPlain a
      → IsPlain r
      → (is_authorized (request p a r context) policies entities).allowed
        ≡ allowed (env_of p a r context entities) policies
  pub errors_law :
      (p a r : EntityRef) (context : List (String × Value)) (policies : List Policy)
      (entities : List CedarEntity)
      → IsPlain p
      → IsPlain a
      → IsPlain r
      → is_empty (is_authorized (request p a r context) policies entities).errors
        ≡ not (errored (env_of p a r context entities) policies)
  pub reasons_law :
      (p a r : EntityRef) (context : List (String × Value)) (policies : List Policy)
      (entities : List CedarEntity)
      → IsPlain p
      → IsPlain a
      → IsPlain r
      → All
          (Names
            (is_authorized (request p a r context) policies entities)
            (determining (env_of p a r context entities) policies))
          (is_authorized (request p a r context) policies entities).reasons
