-- ===== src/Tests/Cases.antt =====
-- The command line and the decision matrix on the cases of the policy tests.
use stackai_authz_service.Prelude.{
  String, ◌≡◌, refl, Bool, true, false, Option, some, List, [], ◌∷◌, ◌++◌, map, take, inl, inr,
  lacks, if◌then◌else◌,
}
use stackai_authz_service.Action
use stackai_authz_service.Action.{◌is◌, mem_action, action_value, action_scope}
use stackai_authz_service.Capability.{has_capability, capability_value}
use stackai_authz_service.Schema.{applies_to}
use stackai_authz_service.Cedar.Reader.{reference_cedar, reference_cedar-IsCedar}
use stackai_authz_service.Policies.{load_policies}
use stackai_authz_service.Rules.{need, key_permits}
use stackai_authz_service.Fixtures.{matrix, export_matrix, key_matrix, KeyCase, role_caps}
use stackai_authz_service.Fixtures.Decided.{grants}
use stackai_authz_service.Cli.{Arguments, verdict_line, import_lines, main}
use stackai_authz_service.Cli.Exits.{main-exit}
use stackai_authz_service.Matrix.{Row, rows, key_resource}
use stackai_authz_service.Matrix.Decisions.{rows-decision}

abbrev edit_arguments : Arguments
edit_arguments = record {
  role = "editor";
  action = "WorkflowUpdate";
  auth_method = "jwt";
  exported = false;
  show_imports = false;
}

main-exit_example :
    (id : Option String) × (main reference_cedar load_policies [] edit_arguments
      ≡ some (verdict_line edit_arguments true id ∷ [], 0))
unfolding action_value applies_to lacks grants need has_capability capability_value role_caps
    import_lines
main-exit_example =
    main-exit reference_cedar [] edit_arguments Action.workflow_update reference_cedar-IsCedar refl
      refl (refl, refl, refl)

-- The last case is on a type of resource that the action is not declared for.
abbrev key_cases : List KeyCase
key_cases = take 5 key_matrix

abbrev column : Bool → String
column expected = if expected then "ALLOW" else "DENY"

rows-decision_example :
    map
      (λ (r : Row). r.decision)
      (rows reference_cedar load_policies matrix export_matrix key_cases)
    ≡ map (λ c. column c.expected) matrix
      ++ (map (λ c. column c.expected) export_matrix ++ map (λ c. column c.expected) key_cases)
unfolding applies_to lacks grants need has_capability capability_value role_caps key_permits
    key_resource mem_action
rows-decision_example =
    rows-decision reference_cedar reference_cedar-IsCedar matrix export_matrix key_cases
      (
        (inl (refl, refl), (refl, refl, refl)),
        (
          (inl (refl, refl), (refl, refl, refl)),
          (
            (inl (refl, refl), (refl, refl, refl)),
            (
              (inl (refl, refl), (refl, refl, refl)),
              (
                (inl (refl, refl), (refl, refl, refl)),
                (
                  (inr (refl, refl), (refl, refl, refl)),
                  (
                    (inl (refl, refl), (refl, refl, refl)),
                    (
                      (inl (refl, refl), (refl, refl, refl)),
                      (
                        (inl (refl, refl), (refl, refl, refl)),
                        (
                          (inr (refl, refl), (refl, refl, refl)),
                          (
                            (inl (refl, refl), (refl, refl, refl)),
                            (
                              (inl (refl, refl), (refl, refl, refl)),
                              (
                                (inl (refl, refl), (refl, refl, refl)),
                                (
                                  (inr (refl, refl), (refl, refl, refl)),
                                  (
                                    (inl (refl, refl), (refl, refl, refl)),
                                    (
                                      (inl (refl, refl), (refl, refl, refl)),
                                      (
                                        (inl (refl, refl), (refl, refl, refl)),
                                        (
                                          (inl (refl, refl), (refl, refl, refl)),
                                          (
                                            (inl (refl, refl), (refl, refl, refl)),
                                            (
                                              (inr (refl, refl), (refl, refl, refl)),
                                              (
                                                (inr (refl, refl), (refl, refl, refl)),
                                                (
                                                  (inl (refl, refl), (refl, refl, refl)),
                                                  (
                                                    (inl (refl, refl), (refl, refl, refl)),
                                                    (
                                                      (inl (refl, refl), (refl, refl, refl)),
                                                      (
                                                        (inl (refl, refl), (refl, refl, refl)),
                                                        (
                                                          (inl (refl, refl), (refl, refl, refl)),
                                                          (
                                                            (inl (refl, refl), (refl, refl, refl)),
                                                            (
                                                            (inr (refl, refl), (refl, refl, refl)),
                                                            (
                                                            (inr (refl, refl), (refl, refl, refl)),
                                                            (
                                                            (inl (refl, refl), (refl, refl, refl)),
                                                            (
                                                            (inl (refl, refl), (refl, refl, refl)),
                                                            (
                                                            (inl (refl, refl), (refl, refl, refl)),
                                                            (
                                                            (inl (refl, refl), (refl, refl, refl)),
                                                            (
                                                            (inl (refl, refl), (refl, refl, refl)),
                                                            tt,
                                                            ),
                                                            ),
                                                            ),
                                                            ),
                                                            ),
                                                            ),
                                                            ),
                                                          ),
                                                        ),
                                                      ),
                                                    ),
                                                  ),
                                                ),
                                              ),
                                            ),
                                          ),
                                        ),
                                      ),
                                    ),
                                  ),
                                ),
                              ),
                            ),
                          ),
                        ),
                      ),
                    ),
                  ),
                ),
              ),
            ),
          ),
        ),
      )
      (
        inl (refl, refl),
        (inl (refl, refl), (inl (refl, refl), (inr (refl, refl), (inr (refl, refl), tt)))),
      )
