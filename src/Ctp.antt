-- ===== src/Ctp.antt =====
-- ctpgateway: the gateway to the trading interface CTP.
pub mod RingBuffer
pub mod Contracts
pub mod Commands
pub mod Examples
pub mod Translate
pub mod OrderId
pub mod MarketData
pub mod Sessions
pub mod Callbacks
pub mod Runs
pub mod Reports
pub mod Requests
pub mod Rpc
