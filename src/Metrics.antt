-- ===== src/Metrics.antt =====
-- server/internal/observability/metrics.go: what the server counts.
pub mod Vector
pub mod Observers
pub mod Labels
pub mod Requests
pub mod Outbox
pub mod Build
pub mod Agreement
pub mod Gauges
pub mod Balance
