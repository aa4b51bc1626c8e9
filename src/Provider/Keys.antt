-- ===== src/Provider/Keys.antt =====
-- The keys of the capability maps and the scopes of the memberships.
use stackai_authz_service.Prelude.{
  String, ◌≡◌, refl, Bool, false, ◌||◌, some, List, [], ◌∷◌, map, any, mem_text, All, >>=-eq-some,
  ◌==◌, arith, eq_iff,
}
use stackai_authz_service.Capability.{Capability}
use stackai_authz_service.Entities.{EntityRef, Resource, mem_ref, ref_eq}
use stackai_authz_service.Rules.Slices.{member_of_slice, HasKind}
use stackai_authz_service.Provider.{
  CapMap, CapabilitySlice, MembershipRow, parse_caps, role_names, add_caps, collect, keys_with,
  key_names, cap_refs, build_slice,
}
use stackai_authz_service.Provider.Refs.{mem_ref-append}
use stackai_authz_service.Provider.Fetched.{cap_refs-kind}

mem_text-add_caps :
    (k j : String) (caps : List Capability) (m : CapMap)
    → mem_text k (key_names (add_caps j caps m)) ≡ (mem_text k (key_names m) || (j == k))
unfolding add_caps
mem_text-add_caps k j caps [] = ground arith
mem_text-add_caps k j caps ((i, old) ∷ m) = ground (arith, mem_text-add_caps k j caps m, eq_iff i j)

abbrev pub scoped : String → List MembershipRow → Bool
scoped k rows = any (λ (row : MembershipRow). row.scope_id == k) rows

-- The keys of the collected map are the scopes of the rows.
pub mem_text-collect :
    (k : String) (rows : List MembershipRow) (m n : CapMap)
    → collect rows m ≡ some n
    → mem_text k (key_names n) ≡ (mem_text k (key_names m) || scoped k rows)
unfolding collect
mem_text-collect k [] m n h = ground arith
mem_text-collect k (row ∷ rows) m n h =
    let (caps, _, h') = >>=-eq-some (parse_caps (role_names row.role)) _ n h in
    ground (
      arith,
      mem_text-collect k rows (add_caps row.scope_id caps m) n h',
      mem_text-add_caps k row.scope_id caps m,
    )

-- A map gives nothing at a key that it lacks.
pub keys_with-absent :
    (c : Capability) (k : String) (m : CapMap)
    → mem_text k (key_names m) ≡ false
    → mem_text k (keys_with c m) ≡ false
unfolding keys_with
keys_with-absent c k [] h = refl
keys_with-absent c k ((j, caps) ∷ m) h = ground (arith, keys_with-absent c k m)

org_ref-mem :
    (k : String) (ks : List String)
    → mem_ref
        (record { kind = "Organization"; id = k })
        (map (λ o. record { kind = "Organization"; id = o }) ks)
      ≡ mem_text k ks
unfolding mem_ref ref_eq
org_ref-mem k [] = refl
org_ref-mem k (j ∷ ks) = ground (arith, org_ref-mem k ks)

caps-mem :
    (r : EntityRef) (rs : List EntityRef)
    → r.kind ≡ "Organization"
    → All (HasKind "Cap") rs
    → mem_ref r rs ≡ false
unfolding mem_ref ref_eq
caps-mem r [] h k = refl
caps-mem r (x ∷ rs) h (e, k) =
    ground (arith, caps-mem r rs h k, eq_iff x.kind r.kind, eq_iff "Cap" "Organization")

-- On a built slice a user is in an organization exactly if the user's capabilities name it.
pub member-org :
    (p : EntityRef) (caps : CapabilitySlice) (es : List Resource) (k : String)
    → p.kind ≡ "User"
    → member_of_slice (build_slice p caps es) (record { kind = "Organization"; id = k })
      ≡ mem_text k (key_names caps.org_caps)
unfolding member_of_slice build_slice ref_eq mem_ref
member-org p caps es k user = ground (
  arith,
  eq_iff p.kind "Organization",
  eq_iff "User" "Organization",
  mem_ref-append (record { kind = "Organization"; id = k }) (cap_refs caps)
      (map (λ o. record { kind = "Organization"; id = o }) (key_names caps.org_caps)),
  org_ref-mem k (key_names caps.org_caps),
  caps-mem (record { kind = "Organization"; id = k }) (cap_refs caps) refl (cap_refs-kind caps),
)
