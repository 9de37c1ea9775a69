-- ===== src/Api.antt =====
-- server/internal/api: the HTTP endpoints over the service.
pub mod Dto
pub mod Reply
pub mod Send
pub mod Status
pub mod Effects
