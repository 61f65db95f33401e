-- ===== src/Backtest.antt =====
-- The simulated exchange of the backtest gateway, btgateway/gatewaymgr.cpp.
pub mod State
pub mod Orders
pub mod Matching
pub mod Fills
pub mod Frozen
pub mod Ticks
pub mod Traded
pub mod Keys
pub mod Safety
pub mod Invariant
pub mod Session
pub mod Outcomes
pub mod Examples
pub mod Replay
