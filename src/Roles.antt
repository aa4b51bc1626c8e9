-- ===== src/Roles.antt =====
-- src/app/api/routers/roles.py: roles made of existing capabilities.
use stackai_authz_service.Prelude.{
  String, Bool, false, ◌&&◌, ◌||◌, not, none, some, List, [], ◌∷◌, ◌++◌, map, any, keep, is_empty,
  mem_text, has_repeats, if◌then◌else◌, ◌==◌,
}
use stackai_authz_service.Capability.{capability_value, all_capabilities}
use stackai_authz_service.Errors.{Result, ok, err, unknown_capability, crash}
use stackai_authz_service.Store.{RoleRow, Store}

-- `_KNOWN_CAPABILITIES`
unfoldable pub known_capabilities : List String
unfolding capability_value
known_capabilities = map capability_value all_capabilities

-- `_validate_capabilities`
unfoldable pub unknown_capabilities : List String → List String
unfolding known_capabilities
unknown_capabilities names = keep (λ n. not (mem_text n known_capabilities)) names

abbrev own : String → RoleRow → Bool
own org_id r = elim r.org_id [ none ↦ false | some o ↦ o == org_id ]

-- Whether the new row breaks a key of `roles`.
abbrev pub role_clash : String → String → String → String → RoleRow → Bool
role_clash id org_id name scope r =
    r.id == id || (own org_id r && (r.name == name) && (r.scope == scope))

-- `create_role` behind its guard; `id` is the one that the database gives. The role and its
-- capabilities are inserted by two requests to the database: a capability that is named twice breaks
-- the second, and the role stays without capabilities.
unfoldable pub create_role :
    String → String → String → List String → String → Store → Result (Unit {0}) × Store
unfolding unknown_capabilities
create_role org_id name scope capabilities id s =
    let row : RoleRow = record {
      id = id;
      org_id = some org_id;
      name = name;
      scope = scope;
      capabilities = capabilities;
    } in
    if not (is_empty (unknown_capabilities capabilities))
    then (err (unknown_capability (unknown_capabilities capabilities)), s)
    else if any (role_clash id org_id name scope) s.roles || not (mem_text org_id s.organizations)
    then (err crash, s)
    else if has_repeats capabilities
    then (err crash, record s { roles = s.roles ++ (record row { capabilities = [] } ∷ []) })
    else (ok tt, record s { roles = s.roles ++ (row ∷ []) })
