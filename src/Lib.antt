-- ===== src/Lib.antt =====
-- Verification of the open model gateway: a Go server (backend/internal) that routes requests for
-- language models to providers, limits their rates, records their cost against budgets, and runs
-- batches of them in the background.
--
-- Parts and files. A function keeps the source's name in snake case, and a part of a long function
-- that stands alone here is named for what it does.
--   Base             Booleans, integers, lists, texts, maps, Go's errors and code that may fail
--   RequestContext   backend/internal/requestctx/context.go
--   Limits           backend/internal/limits/limiter.go. Limits.Redis is the client, a parameter with
--                    the laws of INCRBY and EXPIRE; Limits.Limiter has Allow, Release, countCheck,
--                    semaphoreAcquire and TokenAllowance. Proofs: Counters, Window, Quota, Semaphore
--                    and Slots, where the Redis calls of any number of requests interleave
--   App              backend/internal/app: RateLimits (ratelimits.go, the limit maps of container.go, and
--                    services/adminratelimit), Acquire (ResolveRateLimits, AcquireRateLimits and the
--                    closure that it returns) and ModelAccess (IsModelAllowed and its neighbours).
--                    Proofs: Overrides, Leases, Allowed
--   Router           backend/internal/router/engine.go and providers/route.go: Engine. Proofs: Draw for
--                    the choice by weight, Breaker for the health of routes
--   Usage            backend/internal/services/usagepipeline: Tables (recorder.go, db_helpers.go and the
--                    queries), Budget (budget_evaluator.go, time_windows_util.go), Alerts
--                    (alert_dispatcher.go), Pricing and Logger (logger.go). Proofs: Persist, Spending,
--                    Rolling, Cooldown
--   Batches          backend/internal/services/batches and batchworker: Tables, Queries (db/batches.sql.go),
--                    Service, Worker. Proofs: Ingest, Cancels, Statuses, Claims, Progress
--   Executor         backend/internal/executor/executor.go: Chat, which composes the router, the budgets,
--                    the limiter and the usage records. Proofs: Slots, Fallback
--   Auth             backend/internal/auth, rbac and accounts, app/request_context.go, app/budgets.go and
--                    httpserver/public/api_middleware.go: ApiKey and Words (apikeys.go), Tables (the rows
--                    and queries), Personal (accounts/personal.go), Context (BuildRequestContext),
--                    Middleware (apiKeyAuth) and Roles. Proofs: RoundTrip, Queries, PersonalTenants,
--                    Steps, Admission, Grants
--   Serving          what the public handlers and the batch worker share: Node, the state of a server, and
--                    Guards, the budget check and the limits around a body. Proofs: Slots
--   Public           backend/internal/httpserver/public/openai_routes.go and cache/idempotency.go: Reply,
--                    Chat and Embeddings (the handlers without streams). Proofs: Slots, Replay
--   Items            backend/internal/batchworker/worker.go, from executeItem on: Requests (what a line of
--                    a batch may ask), Embeddings, Images, Chat, Execute. Proofs: Slots, Leases
--   Files            backend/internal/services/files/service.go: Tables (the rows and queries, and the
--                    interface of storage/blob/store.go) and Service. Proofs: Stored, Deletion
--   Health           backend/internal/health/monitor.go: Monitor. Proofs: Recovery
--   Tests            concrete inputs
--
-- How they meet. A request passes Auth.Middleware, which builds its RequestContext; the handler in Public
-- checks the budget (Usage.Budget), takes the slots (App.Acquire over Limits), tries the routes (Router)
-- and writes the record (Usage.Logger). Items does the same for each item that the loop of Batches.Worker
-- claims, and Executor is the same chain for callers inside the server. Health reports to the Router.
--
-- State and errors. Stateful code is a function from a state to a result and a state (Base.Errors):
-- a failure keeps the changes made before it. A method under a mutex, a Redis command and a database
-- query are one step each. Where goroutines run side by side, a list of events or a step relation
-- gives their order, and the theorems hold for every order. Usage.Tables and Auth.Tables let any query
-- fail, as their lists of faults say, and Auth.Tables refuses every query of a transaction after a failed
-- one, as Postgres does; the queries of Batches do not fail. A commit whose reply is lost after it took effect
-- is not modelled. A nil pointer is the error `nil_pointer`, which stands for a panic: no code that is
-- modelled recovers from one, and deferred calls still run. Calls of Cancel and row locks of other
-- goroutines come between the queries of processBatch (Gaps, Event).
--
-- Parameters: the Redis client, package decimal, the calendar of package time, rand.Intn, the
-- providers' answers, JSON (a pair of functions), argon2's verification, the source of random bytes, the
-- file store, the alert sink, and strings.ToLower. A hypothesis that Redis answers is written `Up`.
--
-- Numbers. Go's int and int64 are unbounded integers (Base.Int), since counters stay far below 2^63;
-- conversions to int32 wrap as in Go. UUIDs are numbers, 0 for uuid.Nil. Times are numbers, of seconds
-- but for the router, which counts nanoseconds.
--
-- Loops are structural recursion. Only the loop of failEntireBatch has fuel: one more than the batch
-- has waiting items is enough, because each turn takes one of them.
--
-- Not modelled: streams (a parameter of the chat handler), the handlers of images and audio and those of
-- the administration and of users, sessions, passwords and OIDC, the adapters of providers, the
-- administrative services and reports, the stores of blobs and the listings of files, the result files of batches, start-up and
-- configuration files, metrics and log lines: they translate between formats, forward to a client or a
-- query, or write text.
pub mod Base
pub mod Limits
pub mod RequestContext
pub mod App
pub mod Router
pub mod Usage
pub mod Batches
pub mod Executor
pub mod Serving
pub mod Public
pub mod Items
pub mod Files
pub mod Health
pub mod Auth
pub mod Tests
