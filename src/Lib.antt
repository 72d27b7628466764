-- ===== src/Lib.antt =====
-- Domain monitor: a model of the checking engine, and what is proved of it.
--
-- The program watches domains. A run resolves a domain with two resolvers, requests it over HTTPS (over
-- HTTP where that fails for a reason of the network), decides what the evidence says, and completes in
-- one transaction that records the decision, moves the effective state of the domain and opens or closes
-- its incident. A run is claimed under a lease before it is executed, and is handed to its worker by an
-- outbox of events. From the stored state, the cost and the name a recommendation is made; the cost is
-- computed with exact fractions and exchange rates of a date. The settings are read from the environment
-- and checked before anything starts.
--
-- Files, by package of the repository (paths from its root):
-- - Netcheck (internal/netcheck/errors.go): error codes, `Error`, `FromContext`, `ClassifyTCP`.
-- - Retry (internal/retry/policy.go): `Normalized`, `Delay` and the full jitter, in int64.
-- - Dns.Types, Dns.Compare, Dns.Query, Dns.Trace (internal/dnscheck/types.go, compare.go, checker.go):
--   results, `Compare`, `Query` with its retries, `TraceCNAME`.
-- - Http.Types, Http.Content, Http.Requests, Http.Redirects, Http.Config, Http.Checker
--   (internal/httpcheck/types.go, content.go, checker.go): `readContent`, the classification of errors
--   and status codes, `checkAttempt` with its redirects, `normalizeConfig`, `CheckURL`, `CheckDomain`.
-- - Safedial (internal/safedial/dialer.go, pinned_resolver.go): which addresses may be connected to.
-- - Tlscheck (internal/tlscheck/inspector.go): `Inspect`, `FromConnectionState`, `classifyTLSFailure`.
-- - Status: the vocabularies that the code keeps as strings and migrations/00001_foundation.sql as
--   enumerations; the constructor `blank` is the empty string of a field that was never set.
-- - Classification.Parts, Classification.Evidence, Classification.Classify
--   (internal/classification/classification.go): `Classify`, from the effective attempt, the results of
--   both resolvers and their comparison. Classification.Effective (internal/classification/state.go):
--   `Advance`.
-- - Ispclass (internal/ispclass/classifier.go): `Classify` for a block by the local network.
-- - Monitor.Incidents, Monitor.Complete (internal/monitor/complete.go): `applyIncident` and
--   `CompleteRun` for one domain. `Monitor.Complete.play` is a sequence of completions, in the order in
--   which the row lock of the transaction puts them.
-- - Monitor.Runs (internal/monitor/store.go, complete.go; the table monitoring_runs of
--   migrations/00002_monitoring_and_intelligence.sql with its CHECK constraints and its unique index):
--   `ClaimExecution`, `FailRun` and the last statement of `CompleteRun` on the rows of the runs.
--   `Monitor.Runs.Steps` holds their interleavings, one transaction at a time.
-- - Monitor.Schedule (internal/monitor/scheduler.go, service.go): `ScheduleDue` and `createManualRun`,
--   which insert a run and its event in one transaction.
-- - Outbox (internal/queue/outbox.go): `EnqueueTx`, the claim of a batch, the marks and `RunOnce`.
-- - Config (internal/config/config.go): `Load`. Config.Env reads a value, Config.Sources fills the
--   records of Config.Settings, Config.Checks holds the checks in the order of the code.
-- - Domain.Normalize (internal/domain/normalize.go): `Normalize`, `extractHost`, `validateASCIIName`.
-- - Finance.Decimal, Finance.Engine (internal/finance/decimal.go, engine.go): `ParseDecimal`, the printed
--   decimals, `Calculate`, `Convert`. Finance.Summary (internal/finance/summary.go): `BudgetSummary`,
--   with the rates and windows of `convertForSummary` and `applicableWindows`.
-- - Recommendation.Types, Recommendation.Reasons, Recommendation.Opportunity, Recommendation.Engine
--   (internal/recommendation/engine.go): `opportunity` and `Evaluate`.
-- - Base: names of the libraries, tests on numbers, lists, texts, integers.
-- A module below one of these holds theorems about it, Tests and Checks the examples.
--
-- Conventions. A Go function is a function of the same name in snake case; a method takes its receiver
-- first; a pointer that may be nil is an option; a function that fails returns an option or a result
-- type; state is passed explicitly. Numbers are natural numbers, or integers where the code compares
-- with 0 or computes in int64 (Base.Int). A query type and a status are enumerations, a text that the
-- code walks is a list of code points, any other a native text. What the code takes from elsewhere is a
-- parameter: the parsing and printing of addresses and URLs, domain names and the public suffix list,
-- random draws, clocks, waits, replies of name servers and web servers, the environment, the parsers of
-- durations and of base64, the conversion of international names, the message broker,
-- TLS handshakes and certificates. An error is what `errors.Is` and
-- `errors.As` find in it, and its text.
--
-- Fuel. The loop over redirects has one step more than there may be redirects; that it suffices is part
-- of the theorem on its chain. The loops over attempts and over aliases run over their own bounds. The
-- digits of a number are printed on fuel, for which one more than the number is enough.
--
-- Left out: the selected headers, the hash and the redacted excerpt of a response, the title and the
-- count of meaningful letters of a page (parameters); the inserts that only copy evidence into columns;
-- `QueryAll`, which runs four queries side by side; everything that is a database query, an HTTP
-- handler or a rendering.
pub mod Base
pub mod Config
pub mod Netcheck
pub mod Status
pub mod Classification
pub mod Monitor
pub mod Outbox
pub mod Ispclass
pub mod Finance
pub mod Recommendation
pub mod Retry
pub mod Domain
pub mod Dns
pub mod Http
pub mod Safedial
pub mod Tlscheck
