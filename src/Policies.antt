-- ===== src/Policies.antt =====
-- packages/authz-core/src/authz_core/policies/*.cedar: each policy as a value of `Cedar.Policy`.
use stackai_authz_service.Prelude.{String, List, [], ◌∷◌, ◌++◌}
use stackai_authz_service.Cedar.{
  Expr, principal_in, resource_attr, context_attr, context_has, lit, equal, contains, both, negated,
  always, when, unless, ActionScope, any_action, is_action, in_actions, permit, forbid, Policy,
}

-- permit(principal, action ..., resource) when { principal in resource.attr };
abbrev grants : String → ActionScope → String → Policy
grants id scope attr = record {
  id = id;
  effect = permit;
  scope = scope;
  condition = when (principal_in (resource_attr attr));
}

-- core.cedar
abbrev pub core_policies : List Policy
core_policies =
    grants "org-view" (is_action "OrgView") "org"
    ∷ grants "team-view" (is_action "TeamView") "can_view"
    ∷ grants "cap-view" (in_actions ("WorkflowView" ∷ "WorkflowList" ∷ [])) "can_view"
    ∷ grants "cap-run" (is_action "WorkflowRun") "can_run"
    ∷ grants "cap-edit" (in_actions ("WorkflowCreate" ∷ "WorkflowUpdate" ∷ [])) "can_edit"
    ∷ grants "cap-export" (is_action "WorkflowExport") "can_export"
    ∷ grants "cap-protect-export" (is_action "WorkflowProtectExport") "can_protect_export"
    ∷ grants "cap-delete" (in_actions ("WorkflowDelete" ∷ "TeamDelete" ∷ [])) "can_delete"
    ∷ grants "cap-manage-members"
        (in_actions ("TeamAddMember" ∷ "TeamRemoveMember" ∷ "TeamChangeRole" ∷ []))
        "can_manage_members"
    ∷ grants "cap-create-team" (is_action "TeamCreate") "can_create_team"
    ∷ grants "cap-manage-roles" (in_actions ("RoleCreate" ∷ "RoleDelete" ∷ [])) "can_manage_roles"
    ∷ grants "cap-manage-api-keys" (in_actions ("ApiKeyCreate" ∷ "ApiKeyRevoke" ∷ []))
        "can_manage_api_keys"
    ∷ grants "org-super-admin-full" (in_actions ("OrgAdministrable" ∷ [])) "org_admins"
    ∷ []

abbrev by_api_key : Expr
by_api_key = equal (context_attr "auth_method") (lit "api_key")

-- extras.cedar
abbrev pub extras_policies : List Policy
extras_policies =
    record {
      id = "public-run-exported";
      effect = permit;
      scope = is_action "WorkflowRunExported";
      condition = always;
    }
    ∷ record {
      id = "must-be-exported";
      effect = forbid;
      scope = is_action "WorkflowRunExported";
      condition = unless (resource_attr "exported");
    }
    ∷ record {
      id = "exported-requires-password";
      effect = forbid;
      scope = is_action "WorkflowRunExported";
      condition =
          when (
            both (resource_attr "password_protected") (negated (context_attr "password_verified")));
    }
    ∷ record {
      id = "exported-org-members-only";
      effect = forbid;
      scope = is_action "WorkflowRunExported";
      condition = when (
          both (equal (resource_attr "visibility") (lit "org_only"))
            (negated (principal_in (resource_attr "org"))));
    }
    ∷ record {
      id = "api-key-no-governance";
      effect = forbid;
      scope = in_actions ("Governance" ∷ []);
      condition = when by_api_key;
    }
    ∷ record {
      id = "api-key-single-org";
      effect = forbid;
      scope = any_action;
      condition = when (
          both by_api_key (
            negated (
              both (context_has "api_key_org")
                (equal (resource_attr "org") (context_attr "api_key_org")))));
    }
    ∷ record {
      id = "api-key-scope-check";
      effect = forbid;
      scope = any_action;
      condition = when (
          both by_api_key (
            negated (
              both (context_has "required_scope")
                (contains (context_attr "api_key_scopes") (context_attr "required_scope")))));
    }
    ∷ []

-- `load_policies` joins the sorted texts of the files: extras.cedar sorts before core.cedar.
abbrev pub load_policies : List Policy
load_policies = extras_policies ++ core_policies
