-- ===== src/Runtime.antt =====
-- agent/internal/runtime: the agent's runtime, which ties the job set, the scheduler, the executor
-- and the outbox together.
pub mod Messages
pub mod Jobs
pub mod Retry
pub mod Connection
pub mod Catchup
pub mod Runs
