-- ===== src/Runtime/Messages.antt =====
-- The messages of proto/agent/v1 between the agent and the control plane that the runtime's job
-- handling reads and writes.
use Prim.Native.String.{String}
use cron_compose.Prelude.{ℕ, Bool, List, Bytes}
use cron_compose.Prelude.Int.{ℤ}

-- `agentv1.JobDef`; its numbers are `int32`.
pub record JobDefMsg : Type 0 where
  pub id : String
  pub version_id : String
  pub name : String
  pub interpreter : Bytes
  pub script_body : Bytes
  pub schedule_cron : String
  pub timezone : String
  pub enabled : Bool
  pub timeout_seconds : ℤ
  pub concurrency_policy : String
  pub catchup_policy : String
  pub max_retries : ℤ
  pub working_dir : Bytes
  pub run_as_user : Bytes
  pub env : List (Bytes × Bytes)
  pub secrets : List (Bytes × Bytes)
  pub cpu_quota_percent : ℤ
  pub memory_max_mb : ℤ
  pub tasks_max : ℤ
  pub io_weight : ℤ

-- `agentv1.SyncJobs`.
pub record SyncJobs : Type 0 where
  pub full_snapshot : Bool
  pub upsert : List JobDefMsg
  pub delete : List String
  pub cursor : ℕ
