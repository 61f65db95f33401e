-- ===== src/Datafeed.antt =====
-- datafeed/dbservice.cpp: the database of ticks, bars and contracts.
pub mod Messages
pub mod Store
pub mod Keys
pub mod Insert
pub mod Scan
pub mod Ticks
pub mod Bars
pub mod Contracts
pub mod Ranges
pub mod Contents
pub mod Queries
pub mod Outcomes
pub mod Memory
pub mod Numbers
pub mod Encoding
pub mod Examples
pub mod Counts
pub mod Lifecycle
pub mod Rpc
pub mod CountExamples
