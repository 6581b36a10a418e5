-- ===== src/Store.antt =====
-- agent/internal/store: the agent's files of cached jobs and of the history of each job. A text
-- that is only compared or passed on whole is a `String`, one that is taken apart is bytes.
pub mod Files
pub mod Atomic
pub mod Memory
pub mod Encoding
mod Tests
use Prim.Native.String.{String}
use cron_compose.Prelude.{ℕ, Bool, true, false, List, [], Option, none, some, Bytes}
use cron_compose.Prelude.Int.{ℤ}
use Files.{Disk, Read, missing, unreadable, content, Codec, StateCodec}

-- `store.JobDef`.
pub record JobDef : Type 0 where
  pub id : String
  pub version_id : String
  pub name : String
  pub interpreter : Bytes
  pub script_body : Bytes
  pub schedule_cron : String
  pub timezone : String
  pub enabled : Bool
  pub timeout_seconds : ℤ
  pub concurrency_policy : String
  pub catchup_policy : String
  pub max_retries : ℤ
  pub working_dir : Bytes
  pub run_as_user : Bytes
  pub env : List (Bytes × Bytes)
  pub secrets : List (Bytes × Bytes)
  pub cpu_quota_percent : ℤ
  pub memory_max_mb : ℤ
  pub tasks_max : ℤ
  pub io_weight : ℤ

-- `store.JobState` by job; the zero time is 0.
abbrev pub JobStates : Type 0
JobStates = List (String × ℕ)

module _ (d : Disk) where
  open d use {State, read, write, rename}

  rename_written : String → String → State × Bool → State × Bool
  rename_written tmp final (st, false) = (st, false)
  rename_written tmp final (st, true) = elim (rename tmp final st) [
    | none ↦ (st, false)
    | some st' ↦ (st', true)
  ]

  -- Encode, write beside the file, rename over it; the flag is `err == nil`.
  unfoldable pub save_as : String → String → Option Bytes → State → State × Bool
  unfolding rename_written
  save_as tmp final none st = (st, false)
  save_as tmp final (some b) st = rename_written tmp final (write tmp b st)

  module _ (json : Codec (List JobDef)) where
    unfoldable pub save_jobs : List JobDef → State → State × Bool
    unfolding save_as
    save_jobs jobs st = save_as "jobs.json.tmp" "jobs.json" (json.encode jobs) st

    -- `none` is an error.
    unfoldable pub load_jobs : State → Option (List JobDef)
    load_jobs st = elim (read "jobs.json" st) [
      | missing ↦ some []
      | unreadable ↦ none
      | content b ↦ json.decode b
    ]

  module _ (json : StateCodec) where
    unfoldable pub save_state : JobStates → State → State × Bool
    unfolding save_as
    save_state states st = save_as "state.json.tmp" "state.json" (json.encode states) st

    decoded_or_empty : Option JobStates → JobStates
    decoded_or_empty none = []
    decoded_or_empty (some states) = states

    unfoldable pub load_state : State → JobStates
    unfolding decoded_or_empty
    load_state st = elim (read "state.json" st) [
      | missing ↦ []
      | unreadable ↦ []
      | content b ↦ decoded_or_empty (json.decode b)
    ]
