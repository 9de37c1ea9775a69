-- ===== src/Entity.antt =====
-- server/internal/entity: the outbox record, its states and the channels.
pub mod Channel
pub mod State
pub mod Time
pub mod Outbox
pub mod Message
pub mod Attachments
