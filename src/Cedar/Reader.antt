-- ===== src/Cedar/Reader.antt =====
-- A function that meets the laws of `IsCedar`: it reads the literals back and evaluates the policies.
-- It shows that the laws can hold, and runs the tests.
use text.Mathlib.TextLemmas.{nil-append, cons-append}
use stackai_authz_service.Prelude.{
  String, ◌≡◌, refl, sym, ◌∙◌, ap, subst, Bool, true, false, not, some, List, [], ◌∷◌, map, lookup,
  mem_text, All, is_empty, if◌then◌else◌, arith, cut, cut-append, cat, eq_iff,
}
use stackai_authz_service.Entities.{EntityRef, literal, Value, CedarEntity}
use stackai_authz_service.Cedar.{env_of, errored, allowed, determining, Cedar, IsPlain, IsCedar}

drop_two : String → String
drop_two (String.◌∷◌ c (String.◌∷◌ d s)) = s
drop_two s = s

drop_last : String → String
drop_last String.[] = String.[]
drop_last (String.◌∷◌ c String.[]) = String.[]
drop_last (String.◌∷◌ c (String.◌∷◌ d s)) = String.◌∷◌ c (drop_last (String.◌∷◌ d s))

drop_last-append : (s : String) → drop_last (cat s "\"") ≡ s
unfolding drop_last
drop_last-append String.[] = refl
drop_last-append (String.◌∷◌ c String.[]) = rw cons-append
drop_last-append (String.◌∷◌ c (String.◌∷◌ d s)) =
    rw (cons-append, cons-append)
      (ap (String.◌∷◌ c)
        (ap drop_last (sym (cons-append d s "\"")) ∙ drop_last-append (String.◌∷◌ d s)))

abbrev of_kind : String → String → EntityRef
of_kind k i = record { kind = k; id = i }

abbrev of_parts : String × String → EntityRef
of_parts p = of_kind p.0 (drop_last (drop_two p.1))

read_ref : String → EntityRef
read_ref s = of_parts (cut b':' s)

drop_two-quote : (s : String) → drop_two (cat ":\"" s) ≡ s
unfolding drop_two
drop_two-quote s = rw (cons-append ":" "\"" s) (rw (cons-append "\"" "" s) (rw (nil-append s)))

-- A literal is read back as its reference.
read_ref-literal : (r : EntityRef) → IsPlain r → read_ref (literal r) ≡ r
unfolding read_ref literal drop_two
read_ref-literal r (k, _, _) =
    let rest : String = cat ":\"" (cat r.id "\"") in
    let cut_here : cut b':' (literal r) ≡ (r.kind, rest) =
      rw (cons-append ":" ":\"" (cat r.id "\"")) (cut-append b':' ":" r.kind rest k refl) in
    ap (λ (p : String × String). of_parts p) cut_here
    ∙ ap (λ (x : String). of_kind r.kind x)
        (ap drop_last (drop_two-quote (cat r.id "\"")) ∙ drop_last-append r.id)

abbrev twice : String → String × String
twice s = (s, s)

lookup-twice :
    (x : String) (xs : List String) → mem_text x xs ≡ true → lookup x (map twice xs) ≡ some x
lookup-twice x [] h = cc
lookup-twice x (y ∷ ys) h = ground (arith, eq_iff y x, lookup-twice x ys)

All-named :
    (xs ys : List String)
    → ((x : String) → mem_text x xs ≡ true → mem_text x ys ≡ true)
    → All (λ r. (id : String) × (lookup r (map twice ys) ≡ some id) × (mem_text id ys ≡ true)) xs
All-named [] ys h = tt
All-named (x ∷ xs) ys h =
    let here : mem_text x ys ≡ true = h x (ground (arith, eq_iff x x)) in
    ((x, lookup-twice x ys here, here), All-named xs ys (λ z q. h z (ground arith)))

pub reference_cedar : Cedar
unfolding read_ref drop_two drop_last cut errored allowed determining env_of
reference_cedar req policies entities =
    let env =
      env_of (read_ref req.principal) (read_ref req.action) (read_ref req.resource) req.context
        entities in
    record {
      allowed = allowed env policies;
      errors = if errored env policies then "while evaluating policy" ∷ [] else [];
      reasons = determining env policies;
      annotations = map twice (determining env policies);
    }

module _ (p a r : EntityRef) (context : List (String × Value)) (plain_p : IsPlain p)
    (plain_a : IsPlain a) (plain_r : IsPlain r) where
  reference-env :
      (entities : List CedarEntity)
      → env_of (read_ref (literal p)) (read_ref (literal a)) (read_ref (literal r)) context entities
        ≡ env_of p a r context entities
  reference-env entities =
      rw (read_ref-literal p plain_p)
        (rw (read_ref-literal a plain_a) (rw (read_ref-literal r plain_r)))

is_empty-if : (b : Bool) (x : String) → is_empty (if b then x ∷ [] else []) ≡ not b
is_empty-if true x = refl
is_empty-if false x = refl

pub reference_cedar-IsCedar : IsCedar reference_cedar
unfolding reference_cedar
reference_cedar-IsCedar = record {
  allowed_law = λ p a r context policies entities x y z.
      ap (λ env. allowed env policies) (reference-env p a r context x y z entities);
  errors_law = λ p a r context policies entities x y z.
      is_empty-if _ _
      ∙ ap (λ env. not (errored env policies)) (reference-env p a r context x y z entities);
  reasons_law = λ p a r context policies entities x y z.
      let same =
        ap (λ env. determining env policies) (reference-env p a r context x y z entities) in
      let read =
        determining
          (env_of (read_ref (literal p)) (read_ref (literal a)) (read_ref (literal r)) context
            entities)
          policies in
      subst
        (λ ids.
          All
            (λ reason.
              (id : String) × (lookup reason (map twice read) ≡ some id) × (mem_text id ids ≡ true))
            read)
        same (All-named read read (λ _ h. h));
}
