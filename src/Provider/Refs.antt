-- ===== src/Provider/Refs.antt =====
-- Which capability entities a principal holds, read off its capability slice.
use text.Mathlib.TextLemmas.{cons-append, nil-append}
use stackai_authz_service.Prelude.{
  String, ◌≡◌, refl, sym, ◌∙◌, ap, Bool, true, false, ◌&&◌, ◌||◌, List, [], ◌∷◌, ◌++◌, map, arith,
  ◌==◌, eq_iff, mem_text, any-append, lacks, cut, cut-append, cat,
}
use stackai_authz_service.Capability.{Capability, capability_value, has_capability}
use stackai_authz_service.Entities.{EntityRef, ref_eq, mem_ref, cap_ref}
use stackai_authz_service.Cedar.Hierarchy.{ref_eq_refl, ref_eq_iff}
use stackai_authz_service.Provider.{
  CapMap, CapabilitySlice, keys_with, refs_of, teams_with, orgs_with, cap_refs,
}

value-lacks_colon : (c : Capability) → lacks b':' (capability_value c) ≡ true
unfolding lacks capability_value
value-lacks_colon Capability.view = refl
value-lacks_colon _ = refl

cut-colon : (s t : String) → lacks b':' s ≡ true → cut b':' (cat s (cat ":" t)) ≡ (s, t)
cut-colon s t h =
    rw (cons-append ":" "" t) (cut-append b':' ":" s (cat "" t) h refl ∙ rw (nil-append t))

-- The id of a capability entity determines the capability, the scope type and the scope id.
pub cap_ref_inj :
    (c d : Capability) (s t i j : String)
    → lacks b':' s ≡ true
    → lacks b':' t ≡ true
    → cap_ref c s i ≡ cap_ref d t j
    → (capability_value c ≡ capability_value d) × (s ≡ t) × (i ≡ j)
unfolding cap_ref
cap_ref_inj c d s t i j hs ht e =
    let cut_both =
      sym (cut-colon (capability_value c) (cat s (cat ":" i)) (value-lacks_colon c))
      ∙ ap (λ (r : EntityRef). cut b':' r.id) e
      ∙ cut-colon (capability_value d) (cat t (cat ":" j)) (value-lacks_colon d) in
    let cut_rest =
      sym (cut-colon s i hs)
      ∙ ap (λ (p : String × String). cut b':' p.1) cut_both
      ∙ cut-colon t j ht in
    (
      ap (λ (p : String × String). p.0) cut_both,
      ap (λ (p : String × String). p.0) cut_rest,
      ap (λ (p : String × String). p.1) cut_rest,
    )

eq_of_iff : (a b : Bool) → (a ≡ true → b ≡ true) → (b ≡ true → a ≡ true) → a ≡ b
eq_of_iff true b f g = sym (f refl)
eq_of_iff false true f g = g refl
eq_of_iff false false f g = refl

cap_ref-same :
    (c d : Capability) (s t i j : String)
    → capability_value c ≡ capability_value d
    → s ≡ t
    → i ≡ j
    → ref_eq (cap_ref c s i) (cap_ref d t j) ≡ true
unfolding cap_ref
cap_ref-same c d s t i j e f g = rw e (
    rw f (
      rw g (
        ref_eq_refl
          (record { kind = "Cap"; id = cat (capability_value d) (cat ":" (cat t (cat ":" j))) }))))

-- Comparing two capability entities compares their parts.
pub ref_eq-cap_ref :
    (c d : Capability) (s t i j : String)
    → lacks b':' s ≡ true
    → lacks b':' t ≡ true
    → ref_eq (cap_ref c s i) (cap_ref d t j)
      ≡ ((capability_value c == capability_value d) && (s == t) && (i == j))
ref_eq-cap_ref c d s t i j hs ht =
    eq_of_iff _ _
      (λ h.
        let (same_c, same_s, same_i) =
          cap_ref_inj c d s t i j hs ht (ref_eq_iff (cap_ref c s i) (cap_ref d t j) h) in
        ground (arith, eq_iff (capability_value c) (capability_value d), eq_iff s t, eq_iff i j))
      (λ h.
        cap_ref-same c d s t i j (ground (arith, eq_iff (capability_value c) (capability_value d)))
          (ground (arith, eq_iff s t)) (ground (arith, eq_iff i j)))

-- A capability entity among those of one scope.
pub mem_ref-caps :
    (c : Capability) (s t i j : String) (caps : List Capability)
    → lacks b':' s ≡ true
    → lacks b':' t ≡ true
    → mem_ref (cap_ref c t j) (map (λ d. cap_ref d s i) caps)
      ≡ (has_capability c caps && (s == t) && (i == j))
unfolding mem_ref has_capability
mem_ref-caps c s t i j [] hs ht = refl
mem_ref-caps c s t i j (d ∷ ds) hs ht =
    ground (arith, ref_eq-cap_ref d c s t i j hs ht, mem_ref-caps c s t i j ds hs ht)

pub mem_ref-append :
    (r : EntityRef) (xs ys : List EntityRef) → mem_ref r (xs ++ ys) ≡ (mem_ref r xs || mem_ref r ys)
unfolding mem_ref
mem_ref-append r xs ys = any-append (λ x. ref_eq x r) xs ys

-- A capability entity is among those of a map exactly if the scope types agree and the map gives
-- the capability at the key.
pub mem_ref-refs_of :
    (c : Capability) (s t j : String) (m : CapMap)
    → lacks b':' s ≡ true
    → lacks b':' t ≡ true
    → mem_ref (cap_ref c t j) (refs_of s m) ≡ ((s == t) && mem_text j (keys_with c m))
unfolding refs_of keys_with mem_ref
mem_ref-refs_of c s t j [] hs ht = ground arith
mem_ref-refs_of c s t j ((k, caps) ∷ m) hs ht = ground (
  arith,
  mem_ref-append (cap_ref c t j) (map (λ d. cap_ref d s k) caps) (refs_of s m),
  mem_ref-caps c s t k j caps hs ht,
  mem_ref-refs_of c s t j m hs ht,
)

-- The principal holds a team capability exactly if `teams_with` lists the team.
pub mem_ref-team :
    (c : Capability) (j : String) (s : CapabilitySlice)
    → mem_ref (cap_ref c "team" j) (cap_refs s) ≡ mem_text j (teams_with c s)
unfolding cap_refs teams_with lacks
mem_ref-team c j s = ground (
  arith,
  mem_ref-append (cap_ref c "team" j) (refs_of "team" s.team_caps) (refs_of "org" s.org_caps),
  mem_ref-refs_of c "team" "team" j s.team_caps,
  mem_ref-refs_of c "org" "team" j s.org_caps,
)

-- The principal holds an organization capability exactly if `orgs_with` lists the organization.
pub mem_ref-org :
    (c : Capability) (j : String) (s : CapabilitySlice)
    → mem_ref (cap_ref c "org" j) (cap_refs s) ≡ mem_text j (orgs_with c s)
unfolding cap_refs orgs_with lacks
mem_ref-org c j s = ground (
  arith,
  mem_ref-append (cap_ref c "org" j) (refs_of "team" s.team_caps) (refs_of "org" s.org_caps),
  mem_ref-refs_of c "team" "org" j s.team_caps,
  mem_ref-refs_of c "org" "org" j s.org_caps,
)
