-- ===== src/Tests/Routing.antt =====
-- The routes of the application and the keys of an organization.
use stackai_authz_service.Prelude.{ℕ, String, ◌≡◌, refl, Option, none, some, [], ◌∷◌}
use stackai_authz_service.Principal.{Principal, api_key}
use stackai_authz_service.Assembly.{
  public_operations, iter_api_routes, operations_of, Operation, Document,
}
use stackai_authz_service.Assembly.Table.{app_routes}

-- All that is public.
app_operations :
    public_operations app_routes
    ≡ ("POST", "/v1/public/workflows/{workflow_id}/access")
      ∷ ("POST", "/v1/public/workflows/{workflow_id}/executions")
      ∷ ("GET", "/health")
      ∷ []
unfolding public_operations app_routes iter_api_routes operations_of
app_operations = refl

abbrev plain_operation : Operation
plain_operation = record { summary = ""; security = none }

-- An excerpt of what is generated for the routes.
abbrev generated : Document
generated = record {
  schemes = [];
  security = [];
  paths =
      ("/health", ("get", plain_operation) ∷ [])
      ∷ ("/v1/workflows", ("get", plain_operation) ∷ [])
      ∷ [];
}

abbrev owner : Principal
owner = record {
  subject = "ann";
  auth_method = api_key;
  email = none;
  api_key_scopes = "workflow:run" ∷ [];
  api_key_org_id = some "o1";
}

abbrev times : String → ℕ × Option ℕ
times id = (100, none)
