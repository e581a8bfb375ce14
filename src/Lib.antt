-- ===== src/Lib.antt =====
-- N2API, a gateway that serves one OpenAI-compatible entry point from several upstream accounts:
-- models of the parts of its Go backend that decide, count and keep state, and what holds of them.
--
-- The program. A request reaches the proxy of backend/internal/gateway, which asks its limiters for
-- a slot and for room in the minute, has an account selected by backend/internal/provider, sends
-- the request upstream and reads the answer, a stream of server-sent events among others.
-- backend/internal/admin guards the administration interface and publishes the gateway's settings,
-- backend/internal/alerting turns system events into notifications, backend/internal/store keeps
-- all of it in PostgreSQL, and backend/internal/lifecycle says whether the process is ready.
--
-- The files.
-- Base: numbers, integers, Boolean tests, lists and association lists. Go: the functions of Go's
--   standard library that the models take as parameters. Samples: values of these for the tests.
-- Alerting: backend/internal/alerting/model.go (Model: rules and Rule.validate) and matcher.go
--   (Evaluate: MatchesTrigger, MatchesRecovery, DeduplicationKeyHash, Evaluate).
-- Gateway/Limits: the limiters of backend/internal/gateway/proxy.go. Concurrency has the Acquire
--   and release of gatewayConcurrencyLimiter, accountConcurrencyLimiter and
--   apiKeyConcurrencyLimiter, Rate has apiKeyRateLimiter and apiKeyTokenLimiter.
-- Gateway/Sse: backend/internal/gateway/sse_parser.go. Parser has readLine, the helpers and Next.
-- Admin/Login: backend/internal/admin/login_throttle.go. Throttle has BeginAttempt,
--   RecordFailure and finishAttempt (of RecordSuccess and CancelAttempt) with all their helpers.
-- Provider: backend/internal/provider. Account: AccountSchedulable, accountUnschedulableReason and
--   filterAccountsByEndpoint of service.go, endpoint.go, and selectionUnschedulableReasonForEndpoint
--   of scheduling.go. Sticky: stickySessionHashCandidates and stickySessionCandidates. Repository:
--   the interface behind the selection, also that of selectedAccount. Chain: routingPoolChain.
--   Select: selectFromCandidates and selectionCandidatesForRoutingPoolForEndpoint. Choice:
--   selectAccountForRoutingPoolChain. Failure: RecordAccountFailure of service.go, with the two
--   statements of backend/internal/store/provider.go behind it. Proofs stand in Schedulable, Order,
--   Links, Offered, Usable, Chosen, Selection and Pauses.
-- Admin/Settings: backend/internal/admin/gateway_settings_runtime.go. Runtime has LoadInitial and
--   Refresh (refresh), PublishPersisted and GetGatewaySettings, and normalizeGatewaySettings of
--   backend/internal/admin/service.go; Normal, Sound and Version have the proofs.
-- Lifecycle: backend/internal/lifecycle/readiness.go (Readiness), with its proofs in Phases.
-- Store/Budget: backend/internal/store/api_key_budget_ledger.go. Tables has the rows, Admit has
--   AdmitAPIKeyBudget, Settle has SettleAPIKeyBudgetUsage and RunAPIKeyBudgetSettlementCycle,
--   Maintain has RunAPIKeyBudgetExpiryCycle and RunAPIKeyBudgetAbandonedCycle, Initialize has
--   RunAPIKeyBudgetInitializationCycle. The proofs stand in Balance (what a sound ledger is),
--   Admission, Settling, Expiry, Backfill, Reachable, Limits and Once.
-- Gateway/Proxy: backend/internal/gateway/proxy.go. Handler has ServeHTTP around its loop (the
--   authentication, the limits, requestBodyFactoryWithOptions and the deferred functions) over the
--   Environment; Failover has the loop over the accounts and Upstream the requests to one of them;
--   Serving has their state and what they ask for. Routes reads the request and the key, Routing has
--   responseAffinitySelection, selectAccountForRequest and selectAccountForKey, Codes the statuses
--   and codes. The limiters are those of Gateway/Limits. Proofs: Tidy, Passes, Answers, Moves,
--   Accounts, Budgets and Returns for the loop, Released, Given, Served, Granted and Settled for
--   ServeHTTP.
--
-- Conventions. A method on a pointer returns the new value of what it points to. Each call of a
-- method is one step, as its mutex makes it. A time is a natural number of nanoseconds since Go's
-- zero time, so that 0 is the time for which IsZero holds, and UTC() changes nothing; durations
-- are nanoseconds. Integers that may be zero or negative are ℤ; counters and sums are natural
-- numbers and are taken not to overflow. A nil receiver, logger or observer is left out. A map is
-- an association list.
--
-- Fuel. The parser's Next runs on fuel, one unit for each turn of its loop; each turn takes a slice
-- off the stream, so more fuel than slices is enough. So does routingPoolChain, one unit for each
-- ID it looks up; it looks up no ID twice, so more fuel than pools is enough. The loop of requests
-- to one account has fuel 2: a second request is made only after a refresh, and is the last.
--
-- Not modelled: HTTP below the decisions of the proxy, JSON, SQL access other than named above,
-- cryptography, timers and goroutines, configuration from the environment, and the user interface.
pub mod Base
pub mod Go
pub mod Samples
pub mod Alerting
pub mod Gateway
pub mod Admin
pub mod Provider
pub mod Store
pub mod Lifecycle
