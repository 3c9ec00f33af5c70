-- ===== src/Worker.antt =====
-- The durable execution worker (apps/worker/src): the store of runs and grants behind
-- PrismaWorkerStore, and the theorems about it.
mod Json
pub mod Model
pub mod Journal
pub mod Grants
pub mod Cancel
pub mod Complete
pub mod Failure
pub mod Recover
pub mod Requirements
pub mod Candidate
pub mod Claim
pub mod Heartbeat
pub mod Outcomes
pub mod Calls
pub mod Runs
pub mod Ledger
pub mod Exclusion
pub mod Budget
pub mod Revocation
pub mod Authority
pub mod Retries
pub mod PluginPlan
pub mod Plugins
pub mod Engine
mod Examples
mod EngineExamples
pub mod Execute
pub mod Stream
pub mod Plans
pub mod Settling
pub mod Replay
pub mod Queue
pub mod Invariant
