-- ===== src/Lib.antt =====
-- A model of the API gateway of src: a Fastify server that authenticates, limits, caches and proxies
-- requests by a table of routes which PostgreSQL holds and an admin API edits.
--
-- The way of a request. src/app.ts runs four hooks in order, traceIdMiddleware, authMiddleware,
-- rateLimitMiddleware and cacheMiddleware, then the catch-all handler of src/routes/proxy.routes.ts,
-- then the onSend hook cacheOnSend. A hook that sends a reply ends the way of the request. The
-- handler matches the path against the routes in memory, picks the stable or the canary upstream,
-- and calls the circuit breaker of that upstream, behind which the retry loop calls the HTTP client.
-- The routes in memory are a snapshot of the tables; a poll replaces it when a version was published.
--
-- Files and the code they model:
--   Common          strings as lists of UTF-16 units, the string methods, maps and objects as
--                   association lists, lists measured by native numbers
--   Models          src/models: rows of the tables
--   Router          src/services/router/route-matcher.ts (matchRoute = match_route)
--   Proxy           src/services/proxy: Retry is retry-policy.ts and upstream-client.ts, Forward is
--                   http-proxy.ts, Splitter is traffic-splitter.ts
--   RateLimiter     src/services/ratelimit/rate-limiter.service.ts: sliding_window is the Lua script,
--                   Redis the interface of sorted sets that it uses
--   Metrics         src/services/metrics/metrics.service.ts
--   ErrorHandler    src/middlewares/error-handler.middleware.ts
--   ResponseCache   buildCacheKey of src/services/cache/cache.service.ts
--   CacheService    getCached, setCached and invalidateRoute of the same file
--   Gateway         src/middlewares (Auth, RateLimit, Cache), src/services/auth/jwt.service.ts (Auth),
--                   src/routes/proxy.routes.ts (Handler), the hooks of src/app.ts (Pipeline)
--   Trace           src/middlewares/trace-id.middleware.ts
--   Schemas         src/schemas: the JSON schemas as data, and what Fastify does with them
--   Storage         src/repositories: the SQL of the queries as functions on tables; Constraints has
--                   the writes under the constraints of scripts/migrate.ts
--   ConfigCache     src/services/router/config-cache.ts; Freshness and Serving follow the snapshot of
--                   a gateway through admin requests and polls, Interleaving with the queries of
--                   concurrent requests as steps of their own
--   Admin           src/controllers, src/routes/admin.routes.ts, src/middlewares/admin-auth.middleware.ts;
--                   Bodies decodes the JSON of a body, Writes is the step relation of the writes
--   Connections     the checks of src/config/database.ts and src/config/redis.ts
--   Health          src/services/health/upstream-health.service.ts, src/routes/health.routes.ts
--   Breakers        src/services/proxy/circuit-breaker.ts
--   Settings        src/config/env.ts: the variables of the environment
--   Lifecycle       the hooks onReady and onClose of src/app.ts, the timers, src/server.ts
--   Migrations      scripts/migrate.ts
-- Functions and fields keep the source's names in snake case. Modules below these hold the proofs,
-- and the modules named Tests (with Gateway/Samples) hold runs at concrete inputs.
--
-- State and effects. What the code changes outside itself (Redis, the upstream, the clock, the caches
-- of the JWT libraries) is a state W of the caller's that every call takes and returns; the calls of
-- third-party code are functions on W, arguments of the definitions that use them. A promise is an
-- Outcome, resolved or thrown. Logging is left out.
--
-- Numbers are natural numbers: times in milliseconds, ports, statuses. Two products of the code are
-- rounded to doubles: the roll of the traffic splitter, which the model takes as it was rounded, and
-- the index of a percentile, which has the exact ceiling where the code uses it. All other arithmetic
-- stays in the range in which JavaScript's numbers are exact. A difference of two clock readings
-- is cut off at 0, where the code would compute a negative number if the clock went back. The retry
-- loop runs on fuel of one more than the number of retries, and the SCAN loop of invalidateRoute on
-- fuel for the calls that an iteration of Redis may take; theorems on both show that this is enough.
-- The digits of a number run on fuel of the number plus one. All else is structural.
--
-- Not modelled: the state machine of the circuit breaker (the library opossum), the HTTP server and
-- its plugins, the rest of the OpenAPI documents, the serialiser that Fastify compiles from the
-- schemas of replies, logging, the probe of an upstream itself (an HTTP call), the options of the
-- clients, the seeds and the example services. They are calls of third-party code with fixed options,
-- or code that serves demonstrations.
pub mod Common
pub mod Models
pub mod Router
pub mod Proxy
pub mod ErrorHandler
pub mod RateLimiter
pub mod Metrics
pub mod ResponseCache
pub mod Gateway
pub mod CacheService
pub mod Trace
pub mod Schemas
pub mod Storage
pub mod ConfigCache
pub mod Admin
pub mod Connections
pub mod Health
pub mod Breakers
pub mod Lifecycle
pub mod Migrations
pub mod Settings
