-- ===== src/Provider.antt =====
-- server/internal/service: the providers that deliver a message, and the HTTP client they share.
pub mod Client
pub mod Redaction
pub mod Address
pub mod Destination
pub mod Dial
pub mod Http
pub mod Headers
pub mod Sms
pub mod Inversion
pub mod Accepted
pub mod Bale
pub mod Mattermost
pub mod Chat
pub mod Smtp
pub mod Email
pub mod Secrecy
pub mod Mailed
