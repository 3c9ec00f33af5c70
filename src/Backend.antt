-- ===== src/Backend.antt =====
-- The backend (apps/backend/src): the semaphore that bounds the generation jobs, and the transitions
-- of agents, specifications, jobs and certification runs.
pub mod Semaphore
pub mod Lifecycle
pub mod Walks
pub mod Access
mod Examples
