-- ===== src/Capability.antt =====
-- packages/authz-core/src/authz_core/capabilities.py: what policies bind to.
use stackai_authz_service.Prelude.{String, Bool, List, [], ◌∷◌, any, ◌==◌, cat}

pub data Capability : Type 0 where
  view run edit export : Capability
  protect_export delete manage_members create_team : Capability
  manage_org manage_roles manage_api_keys : Capability

-- `c.value`; `Capability` is a `StrEnum`.
unfoldable pub capability_value : Capability → String
capability_value view = "view"
capability_value run = "run"
capability_value edit = "edit"
capability_value export = "export"
capability_value protect_export = "protect_export"
capability_value delete = "delete"
capability_value manage_members = "manage_members"
capability_value create_team = "create_team"
capability_value manage_org = "manage_org"
capability_value manage_roles = "manage_roles"
capability_value manage_api_keys = "manage_api_keys"

-- `Capability.attribute`
unfoldable pub attribute : Capability → String
unfolding capability_value
attribute c = cat "can_" (capability_value c)

-- `for c in Capability`
abbrev pub all_capabilities : List Capability
all_capabilities =
    view ∷ run ∷ edit ∷ export ∷ protect_export ∷ delete ∷ manage_members ∷ create_team ∷ manage_org
    ∷ manage_roles ∷ manage_api_keys ∷ []

-- `c in caps`, for a set of capabilities
unfoldable pub has_capability : Capability → List Capability → Bool
unfolding capability_value
has_capability c caps = any (λ d. capability_value d == capability_value c) caps
