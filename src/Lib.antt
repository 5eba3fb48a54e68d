-- ===== src/Lib.antt =====
-- Verification of the API gateway platform (packages/ of the repository).
--
-- The gateway loads the active deployments into a registry, finds for each request the context of
-- its host, the proxy of its path and the endpoint of its method, runs the endpoint's policies, and
-- forwards the request. The management side deploys revisions of proxies to environments and
-- records each change in a log that the gateways follow.
--
-- Common      tests, lists, texts, maps, sorting and results, as the language has them
-- Shared      packages/shared/src: policy types and configurations (policies/config.ts), stages
--             and regions (deployments/config.ts), endpoints and proxies (types/common.ts)
-- Resolver    packages/gateway-core/src/proxy/resolver.ts. Registry has the module's variables as
--             a record, loadProxies (load_proxies) and resolveProxy (resolve_proxy); Template has
--             compileEndpointPath and resolveEndpoint, the regular expression as a list of parts
-- Auth        packages/gateway-core/src/auth/authorization.ts: credentials and product grants
-- Policies    packages/gateway-core/src/policies: types.ts, registry.ts, pipeline.ts, the API-key
--             and mTLS policies (auth/) and the rate limiter (rate-limit/) with its script
-- Oauth       packages/gateway-core/src/policies/oauth: AccessToken has the access-token and JWKS
--             policies, Assertions the authentication of assertions and developer grants, Token
--             the token endpoint
-- Gateway     packages/gateway-core/src: of server.ts the catch-all handler, composed of the resolver
--             and the pipeline (Handler); proxy/forwarder.ts (Forwarder), db/proxy-loader.ts (Rows,
--             Loader) and proxy/config-validator.ts (Validation)
-- Sync        packages/gateway-core/src/runtime-sync/reloader.ts: GatewayConfigReloader as a step
--             relation, a step for each stretch between two awaits and for the callback that ends a reload
--             (Reloader); and
--             packages/management-api/src/runtime-sync/publisher.ts: the dispatch of the log's
--             pending changes (Publisher)
-- Database    packages/database/src: proxy-deployments.ts (Rows, Deployments) and
--             gateway-config-changes.ts (Changes); Tables has the rows of prisma/schema.prisma
-- Applications  packages/database/src/application-management.ts: applications, public keys and
--             updates of credentials (Updates), grants of products (Grants), clones (Clones)
-- Labs        packages/database/src/lab-workspaces.ts, over the same tables: the resources of a workspace
--             (Resources) and the transactions (Workspaces)
-- Management  packages/management-api/src: auth/authorization.ts (Principals) and of
--             services/developer-tokens.ts the service that issues developer tokens (Tokens)
-- Egress      packages/lab-egress/src: security.ts (Security), and of server.ts the quota (Quota),
--             the redirect loop (Redirects) and the handler of upstreams (Server)
-- Examples    concrete configurations, requests and stores on which the theorems are applied
--
-- A policy takes the context and the outside world and gives both back with a result or the fact
-- that it threw; calls of stores, clocks, URL parsing and the token library are arguments. Numbers
-- are natural numbers, times are counted in milliseconds or, where the source divides, in seconds.
-- A transaction is a function from the database to an error or the database after it. The redirect loop
-- recurs on the number of redirects that are left, 3 where the source starts it; all other functions
-- are structural recursions, and no fuel is used. Generated identifiers, keys and secrets are inputs.
--
-- Not modelled: logging, the metadata of audit events and the transport of requests, which decide
-- nothing here; the routes of the management API, the admin panel, the command line and the PKI,
-- which call the modelled functions or libraries; seeds and scripts, which are data; and, of
-- packages/database/src, proxy-bundle.ts, proxy-revisions.ts, lab-upstreams.ts and the greater part
-- of credentials.ts.
pub mod Common
pub mod Shared
pub mod Resolver
pub mod Auth
pub mod Policies
pub mod Oauth
pub mod Gateway
pub mod Database
pub mod Sync
pub mod Egress
pub mod Management
pub mod Labs
pub mod Applications
pub mod Examples
