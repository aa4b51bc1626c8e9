-- ===== src/Assembly/Table.antt =====
-- The routes that src/app/main.py assembles: the decorator and the guard of each handler in
-- src/app/api/routers.
use stackai_authz_service.Prelude.{String, List, [], ◌∷◌, ◌++◌, cat}
use stackai_authz_service.Action.{Action}
use stackai_authz_service.Deps.{workflow_spec, team_spec, org_spec}
use stackai_authz_service.Assembly.{
  Dependency, guard, login, unmarked, ApiRoute, Routes, done, api, nested,
}

-- A route of one method; the dependencies without a marker are one.
abbrev route : String → String → List Dependency → ApiRoute
route method path guards = record {
  path = path;
  methods = method ∷ [];
  dependencies = guards ++ (unmarked ∷ []);
}

abbrev on_org : String → String → Action → ApiRoute
on_org method path action = route method (cat "/v1/orgs/{org_id}" path) (guard action org_spec ∷ [])

abbrev on_team : String → String → Action → ApiRoute
on_team method path action =
    route method (cat "/v1/teams/{team_id}" path) (guard action team_spec ∷ [])

abbrev on_workflow : String → String → Action → ApiRoute
on_workflow method path action =
    route method (cat "/v1/workflows/{workflow_id}" path) (guard action workflow_spec ∷ [])

abbrev add_org_member_route : ApiRoute
add_org_member_route = on_org "POST" "/members" Action.org_add_user

abbrev remove_org_member_route : ApiRoute
remove_org_member_route = on_org "DELETE" "/members/{user_id}" Action.org_remove_user

abbrev change_org_role_route : ApiRoute
change_org_role_route = on_org "PATCH" "/members/{user_id}" Action.org_change_role

abbrev orgs_router : Routes
orgs_router =
    api add_org_member_route (api remove_org_member_route (api change_org_role_route done))

abbrev create_team_route : ApiRoute
create_team_route = on_org "POST" "/teams" Action.team_create

abbrev list_org_teams_route : ApiRoute
list_org_teams_route = on_org "GET" "/teams" Action.org_view

abbrev list_my_teams_route : ApiRoute
list_my_teams_route = route "GET" "/v1/me/teams" (login ∷ [])

abbrev add_team_member_route : ApiRoute
add_team_member_route = on_team "POST" "/members" Action.team_add_member

abbrev delete_team_route : ApiRoute
delete_team_route = on_team "DELETE" "" Action.team_delete

abbrev remove_team_member_route : ApiRoute
remove_team_member_route = on_team "DELETE" "/members/{user_id}" Action.team_remove_member

abbrev change_team_role_route : ApiRoute
change_team_role_route = on_team "PATCH" "/members/{user_id}" Action.team_change_role

abbrev teams_router : Routes
teams_router = api create_team_route (
    api list_org_teams_route (
      api list_my_teams_route (
        api add_team_member_route (
          api delete_team_route (api remove_team_member_route (api change_team_role_route done))))))

abbrev create_workflow_route : ApiRoute
create_workflow_route = on_team "POST" "/workflows" Action.workflow_create

abbrev list_workflows_route : ApiRoute
list_workflows_route = route "GET" "/v1/workflows" (login ∷ [])

abbrev get_workflow_route : ApiRoute
get_workflow_route = on_workflow "GET" "" Action.workflow_view

abbrev update_workflow_route : ApiRoute
update_workflow_route = on_workflow "PUT" "" Action.workflow_update

abbrev run_workflow_route : ApiRoute
run_workflow_route = on_workflow "POST" "/executions" Action.workflow_run

abbrev delete_workflow_route : ApiRoute
delete_workflow_route = on_workflow "DELETE" "" Action.workflow_delete

abbrev workflows_router : Routes
workflows_router = api create_workflow_route (
    api list_workflows_route (
      api get_workflow_route
        (api update_workflow_route (api run_workflow_route (api delete_workflow_route done)))))

abbrev set_workflow_export_route : ApiRoute
set_workflow_export_route = on_workflow "PUT" "/export" Action.workflow_export

abbrev unset_workflow_export_route : ApiRoute
unset_workflow_export_route = on_workflow "DELETE" "/export" Action.workflow_export

abbrev set_workflow_export_protection_route : ApiRoute
set_workflow_export_protection_route =
    on_workflow "PUT" "/export/protection" Action.workflow_protect_export

abbrev publishing_router : Routes
publishing_router =
    api set_workflow_export_route
      (api unset_workflow_export_route (api set_workflow_export_protection_route done))

abbrev create_api_key_route : ApiRoute
create_api_key_route = on_org "POST" "/api-keys" Action.api_key_create

abbrev list_api_keys_route : ApiRoute
list_api_keys_route = on_org "GET" "/api-keys" Action.api_key_create

abbrev revoke_api_key_route : ApiRoute
revoke_api_key_route = on_org "DELETE" "/api-keys/{key_id}" Action.api_key_revoke

abbrev api_keys_router : Routes
api_keys_router = api create_api_key_route (api list_api_keys_route (api revoke_api_key_route done))

abbrev create_role_route : ApiRoute
create_role_route = on_org "POST" "/roles" Action.role_create

abbrev roles_router : Routes
roles_router = api create_role_route done

abbrev exchange_password_for_token_route : ApiRoute
exchange_password_for_token_route = route "POST" "/v1/public/workflows/{workflow_id}/access" []

abbrev execute_exported_workflow_route : ApiRoute
execute_exported_workflow_route = route "POST" "/v1/public/workflows/{workflow_id}/executions" []

abbrev public_router : Routes
public_router = api exchange_password_for_token_route (api execute_exported_workflow_route done)

abbrev explain_route : ApiRoute
explain_route = route "POST" "/v1/authz/explain" (login ∷ [])

abbrev authz_router : Routes
authz_router = api explain_route done

abbrev health_route : ApiRoute
health_route = route "GET" "/health" []

abbrev include_router : Routes → Routes → Routes
include_router router rest = nested router done rest

-- The routes that `create_app` adds.
unfoldable pub app_routes : Routes
app_routes = include_router orgs_router (
    include_router teams_router (
      include_router workflows_router (
        include_router publishing_router (
          include_router api_keys_router (
            include_router roles_router (
              include_router public_router
                (include_router authz_router (api health_route done))))))))
