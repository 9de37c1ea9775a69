-- ===== src/App.antt =====
-- server/internal/app, server/internal/config and server/internal/api/http/http.go: how the parts are
-- put together and stopped.
pub mod Config
pub mod Senders
pub mod Stop
pub mod Wiring
pub mod Stopping
pub mod Startup
pub mod Starting
