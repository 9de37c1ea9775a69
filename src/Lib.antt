-- ===== src/Lib.antt =====
-- Kaftar accepts messages over HTTP, keeps them in an outbox table, and delivers them through
-- providers, with leases, retries and deadlines. The paths below are under server/.
--
-- The parts and how they interact. A request (internal/api) becomes a message with options, which
-- the service (internal/service/service.go) validates and saves through the repository
-- (internal/repository). The relay reserves due rows and publishes notifications; a consumer claims
-- the row of a notification, calls the provider of its channel (internal/service/sms, email, ...),
-- and finishes the row. Health checks and metrics (internal/observability) watch the parts.
--
-- The files:
--   Prelude   Boolean tests, lists with native lengths, Go's int, sort.Slice, texts.
--   Entity    internal/entity: channels, messages and Validate, the outbox and its states, times as
--             nanoseconds, the JSON of attachments (Attachments). `Go` holds the functions of Go's
--             packages that the entities call.
--   Repo      internal/repository: rows (Model), a table as a list of rows and what the database does
--             in one call (Table: its clock, skipped locks and faults), Create, Get, Update and
--             Delete (Create), ReserveDispatch, Claim and Finish (Delivery), Stats, Migrate. A call
--             takes the table and returns its result and the table after it; a failed transaction
--             returns the table it was given, but an insertion that is reported as failed may have
--             been committed. Keys, Grows, Lifecycle, Sound, Reserve, Claim, Finish,
--             Idempotency, Pacing, Written, Spent, Progress, Counts, Oldest, Census and Migration hold proofs.
--   Service   service.go: retry limits and delays (Retry), acceptance and Send (Accept), the settling
--             of an attempt (Settle), handleDelivery (Deliver), workers, Health and Status (Workers),
--             publishing (Broker), the relay (Relay), the consumers (Consume), Shutdown. Delays,
--             Retransmission, Published, Consumption, Prepared and Tracking hold proofs, as does Shutdown.
--   System    the repository calls of all the processes in any interleaving, as a step relation; a
--             worker may crash or complete late or twice. Preserve, Dispatch, Complete, Submit,
--             Invariant, Tally, Attempts, Fencing, Tokens, Worker, Consuming, Relaying and Retries hold
--             proofs.
--   Health    health.go: the checks (Check) and the reports (Report); Aggregate, Verdict and Ready hold
--             proofs.
--   Metrics   internal/observability/metrics.go: a metric with labels as a function of them (Vector),
--             the observers (Observers), the middleware (Requests), label values (Labels), the
--             collector of outbox gauges (Outbox), the build information (Build). Agreement, Balance
--             and Gauges hold proofs.
--   Provider  SafeError and Response (Client), IP addresses (Address), the destination policy and
--             dialContext (Destination), the senders for HTTP, SMS, email, Bale and Mattermost (Http,
--             Sms, Email over the dialogue of Smtp, Bale, Mattermost). Redaction, Dial, Inversion,
--             Headers, Accepted, Chat, Mailed and Secrecy hold proofs.
--   Api       internal/api: transfer objects (Dto), replies (Reply), the handlers (Send, Status);
--             Effects holds proofs.
--   App       internal/config and internal/app: the configuration (Config), the senders it enables
--             (Senders), the start and the end of the application (Startup, Stop); Wiring,
--             Starting and Stopping hold proofs.
--   Examples  runs at concrete inputs.
--
-- Numbers are naturals, and Go's int is ℤ; counters, times and durations are taken to fit their
-- machine types. No definition needs fuel: every loop is over a list or a text.
--
-- Not modelled: reading the environment, opening and probing connections, and logging (pkg,
-- cmd/main.go), the start of the web framework, and the registration of metrics. A call other than an
-- insertion that reports a failure is taken to be rolled back. Third-party packages, the database, the
-- broker and the network are parameters.
pub mod Prelude
pub mod Entity
pub mod Repo
pub mod Service
pub mod System
pub mod Health
pub mod Metrics
pub mod Provider
pub mod Api
pub mod App
pub mod Examples
