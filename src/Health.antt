-- ===== src/Health.antt =====
-- server/internal/observability/health.go: the checks, how their results are collected, and what
-- the reports say.
pub mod Check
pub mod Report
mod Aggregate
pub mod Verdict
pub mod Ready
