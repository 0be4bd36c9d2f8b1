-- ===== src/Gateway.antt =====
-- services/gateway: the routes of the gateway, and what a request passes on its way to a handler.
pub mod Http
pub mod Payments
pub mod Keys
pub mod Middleware
pub mod Replay
pub mod Auth
pub mod Creation
pub mod Bearer
pub mod Retry
pub mod Threads
pub mod Interleaving
pub mod Rest
mod Tests
