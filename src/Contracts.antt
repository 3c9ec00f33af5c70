-- ===== src/Contracts.antt =====
-- The contracts package (packages/contracts/src).
pub mod Broker
mod Examples
