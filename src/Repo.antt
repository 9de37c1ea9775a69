-- ===== src/Repo.antt =====
-- server/internal/repository and its outbox_repo: the durable outbox over one table.
pub mod Errors
pub mod Model
pub mod Table
pub mod Create
pub mod Migrate
pub mod Migration
pub mod Stats
pub mod Counts
pub mod Oldest
pub mod Census
pub mod Delivery
pub mod Grows
pub mod Lifecycle
pub mod Keys
pub mod Sound
pub mod Reserve
pub mod Pacing
pub mod Written
pub mod Spent
pub mod Progress
pub mod Claim
pub mod Finish
pub mod Idempotency
