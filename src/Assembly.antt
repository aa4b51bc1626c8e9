-- ===== src/Assembly.antt =====
-- src/app/main.py: the routes of the application, the operations without a guard and the security
-- entries of the API document. The routes that FastAPI adds for the document itself are left out: they
-- are no API routes.
pub mod Table
pub mod Operations
use stackai_authz_service.Prelude.{
  String, Option, none, some, lower, ◌==◌, Bool, true, false, not, List, [], ◌∷◌, ◌++◌, map, any,
  keep, mem_text, if◌then◌else◌, cat,
}
use stackai_authz_service.Action
use stackai_authz_service.Action.{Action}
use stackai_authz_service.Deps.{ResourceSpec, workflow_spec, team_spec, org_spec}

-- A dependency of a route: `requires(...)`, `requires_authenticated()`, or one without the marker.
pub data Dependency : Type 0 where
  guard : Action → ResourceSpec → Dependency
  login : Dependency
  unmarked : Dependency

-- `getattr(getattr(dep, "call", None), AUTHZ_DEPENDENCY_MARKER, False)`
abbrev pub has_marker : Dependency → Bool
has_marker (guard a spec) = true
has_marker login = true
has_marker unmarked = false

pub record ApiRoute : Type 0 where
  pub path : String
  pub methods : List String
  pub dependencies : List Dependency

-- A list of routes. What is no `APIRoute` has the routes of its original router and routes of its own;
-- `done` is also what an absent attribute counts as.
pub data Routes : Type 0 where
  done : Routes
  api : ApiRoute → Routes → Routes
  nested : (original own : Routes) → Routes → Routes

abbrev pub has_routes : Routes → Bool
has_routes done = false
has_routes (api r rest) = true
has_routes (nested original own rest) = true

-- `_iter_api_routes`
unfoldable pub iter_api_routes : Routes → List ApiRoute
iter_api_routes done = []
iter_api_routes (api r rest) = r ∷ iter_api_routes rest
iter_api_routes (nested original own rest) =
    let inner = iter_api_routes original in
    let outer = iter_api_routes own in
    (if has_routes original then inner else outer) ++ iter_api_routes rest

abbrev pub is_guarded : ApiRoute → Bool
is_guarded r = any (λ d. has_marker d) r.dependencies

-- `{"HEAD", "OPTIONS"}`
abbrev pub skipped : List String
skipped = "HEAD" ∷ "OPTIONS" ∷ []

unfoldable pub operations_of : List ApiRoute → List (String × String)
operations_of [] = []
operations_of (r ∷ rs) =
    let rest = operations_of rs in
    if is_guarded r
    then rest
    else map (λ m. (m, r.path)) (keep (λ m. not (mem_text m skipped)) r.methods) ++ rest

-- `_public_operations`
unfoldable pub public_operations : Routes → List (String × String)
unfolding iter_api_routes operations_of
public_operations routes = operations_of (iter_api_routes routes)

-- An operation of the document; a `security` of its own stands in place of the document's.
pub record Operation : Type 0 where
  pub summary : String
  pub security : Option (List String)

abbrev pub Paths : Type 0
Paths = List (String × List (String × Operation))

-- The entries that the hook reads or writes: the names of `securitySchemes` and of the global
-- `security`, and `paths`.
pub record Document : Type 0 where
  pub schemes : List String
  pub security : List String
  pub paths : Paths

-- `operation["security"] = []`
abbrev pub clear : Operation → Operation
clear operation = record operation { security = some [] }

-- The dict with a change of the value at a key that it has.
unfoldable pub update_at {ℓ} :
    {A : Type ℓ} → (A → A) → String → List (String × A) → List (String × A)
update_at f k [] = []
update_at f k ((j, v) ∷ m) =
    let rest = update_at f k m in if j == k then (j, f v) ∷ m else (j, v) ∷ rest

-- The loop over the operations without a guard.
unfoldable pub clear_all : List (String × String) → Paths → Paths
unfolding update_at lower
clear_all [] paths = paths
clear_all ((method, path) ∷ operations) paths =
    clear_all operations (update_at (update_at clear (lower method)) path paths)

-- `custom_openapi`, with the document that the application holds already and the one that
-- `get_openapi` makes of the routes.
unfoldable pub custom_openapi : Option Document → Document → Routes → Document
unfolding clear_all public_operations
custom_openapi (some held) generated routes = held
custom_openapi none generated routes = record {
  schemes = "bearerAuth" ∷ [];
  security = "bearerAuth" ∷ [];
  paths = clear_all (public_operations routes) generated.paths;
}
