-- ===== src/Push.antt =====
-- The push services: ctpgateway, btgateway and cta send messages to the clients that are connected
-- to them, each through a queue of its own.
pub mod Messages
pub mod Clients
pub mod Service
pub mod Gateways
pub mod Subscriptions
pub mod Received
pub mod Queries
pub mod Lifetimes
pub mod Cta
pub mod Examples
