-- ===== src/Service.antt =====
-- server/internal/service/service.go: acceptance, delivery, retries and shutdown.
pub mod Retry
pub mod Delays
pub mod Retransmission
pub mod Prepared
pub mod Tracking
pub mod Errors
pub mod Accept
pub mod Settle
pub mod Deliver
pub mod Workers
pub mod Broker
pub mod Relay
pub mod Consume
pub mod Published
pub mod Shutdown
pub mod Consumption
