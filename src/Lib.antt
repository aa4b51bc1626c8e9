-- ===== src/Lib.antt =====
-- Verification library of the StackAI authorization service: a Python service that guards a REST API by
-- policies of Cedar.
--
-- A request comes in with credentials, which an authenticator turns into a principal; the guard of its
-- route fetches the entities that the decision needs, asks the policy engine first whether the principal
-- may see the resource and then whether the action is allowed, queues audit rows, and lets the handler
-- run or raises an exception that a handler turns into a problem document. Two public routes have no
-- guard: one exchanges the password of a published workflow for a token, under a rate limit, and one
-- runs a published workflow.
--
-- Which module models which part:
--   Action, Capability     packages/authz-core/src/authz_core/actions.py, capabilities.py
--   Entities, Decision     packages/authz-core/src/authz_core/entities.py, decision.py
--   Schema                 packages/authz-core/src/authz_core/schema.py (shapes, actions, load_policies)
--   Policies               packages/authz-core/src/authz_core/policies/core.cedar, extras.cedar
--   Cedar                  the part of Cedar that the policies use: expressions, verdicts and the
--                          reading of a request, with cedarpy.is_authorized as a parameter whose
--                          documented behaviour is the record IsCedar; Cedar.Reader has an instance
--   Engine                 packages/authz-core/src/authz_core/engine.py (AuthzContext, PolicyEngine)
--   Rules                  no code: the access rules in plain terms, which the policies are to implement
--   Provider               src/app/infra/entity_provider.py (CapabilitySlice, slice_for)
--   Prefilter              src/app/infra/prefilter.py; Prefilter.Text has no code: how PostgREST reads the
--                          text of the filter
--   Principal              src/app/auth/principal.py
--   ApiKeys                src/app/auth/api_key.py, src/app/infra/api_key_repository.py and
--                          src/app/api/routers/api_keys.py, over a list of rows for the table
--   Authentication         src/app/auth/base.py, src/app/auth/jwt.py and get_principal of
--                          src/app/api/deps.py
--   Audit, Errors          src/app/infra/audit.py, src/app/api/errors.py
--   Deps                   src/app/api/deps.py (requires, with its steps decide, check_visible and act)
--   RateLimiter            _RateLimiter of src/app/api/routers/public.py
--   WorkflowToken          src/app/auth/workflow_token.py
--   Public                 the two routes of src/app/api/routers/public.py
--   Workflows              list_workflows of src/app/api/routers/workflows.py; Workflows.Walk has a
--                          client that follows the cursors, whose number of requests is its fuel
--   Publishing             the other handlers of src/app/api/routers/workflows.py
--   Memberships            src/app/api/routers/orgs.py and teams.py, src/app/infra/lookups.py
--   Roles, Violations      src/app/api/routers/roles.py, src/app/invariants/sqlstate.py
--   Explain                src/app/api/routers/authz.py
--   Assembly               src/app/main.py: the routes, those without a guard, the API document's security
--   Fixtures               packages/authz-core/tests/conftest.py and the cases of test_policy_matrix.py,
--                          which the next two read
--   Cli, Matrix            src/app/cli.py and scripts/generate_matrix.py
--   Store                  the tables of supabase/migrations/20260820000100_schema.sql; Store.Triggers
--                          and Store.Functions are 20260820000200_triggers.sql and
--                          20260820000400_invariants.sql, Store.Queries the provider's queries,
--                          Store.Administration delete_role and the creation of users and organizations
--   Service                the requests that change the database, each with its guard and its handler,
--                          and sequences of them; Service.Administered adds what Store.Administration has
--   Prelude                shared names, lists, texts, sorting; Tests holds the data and the examples
--
-- State is passed on explicitly: RequestState is request.state with the queued audit tasks, Memo the
-- provider's memo, RateLimiter the two dicts of the limiter, Store the tables, Scan the variables of the
-- paging loop. An exception is a value of Raised. Random values, clocks and database queries are arguments.
--
-- Bounds: the only loop that may stop early is the paging loop, whose five rounds are the source's own
-- MAX_REFILL_ROUNDS; a page that it leaves short carries a cursor. The fuel of the client that follows
-- the cursors is one more than the number of rows, so enough for one page for each row and the last.
-- Times are whole milliseconds or seconds, where the source has floats; the conversion to a float that
-- overflows in record_failure is kept as a failure from 2 ** 1024 on. The page limit is a natural
-- number; the source also takes negative ones.
--
-- Requests are served one after the other: the advisory locks of the database functions put the calls
-- for one organization in such an order, and a statement outside them is one transaction with its
-- triggers. A table is a list of rows, and the role of a row of memberships is looked up by its id.
--
-- Not modelled: the text format of policy files and Cedar's parser, argon2, PyJWT, PostgREST, argparse and
-- FastAPI's generation of the API document (they are parameters or stand before the model's inputs), the
-- timing of answers, how often PyJWKClient fetches keys itself (the number comes with each token in
-- Authentication.Refetch), a second reading of the clock in one exchange (the two are one time),
-- interleavings between the queries of one request, the bodies that repeat a row, the columns of times
-- that no check reads, the validation of request bodies by pydantic, settings, the client's factory, and
-- the seed and privileges of the database.
mod Prelude
pub mod Action
pub mod Capability
pub mod Entities
pub mod Decision
pub mod Cedar
pub mod Policies
pub mod Engine
pub mod Schema
pub mod Rules
pub mod Provider
pub mod Prefilter
pub mod Principal
pub mod Audit
pub mod Errors
pub mod Deps
pub mod RateLimiter
pub mod WorkflowToken
pub mod Public
pub mod ApiKeys
pub mod Authentication
pub mod Workflows
pub mod Store
pub mod Violations
pub mod Memberships
pub mod Roles
pub mod Publishing
pub mod Service
pub mod Tests
pub mod Explain
pub mod Assembly
pub mod Fixtures
pub mod Cli
pub mod Matrix
