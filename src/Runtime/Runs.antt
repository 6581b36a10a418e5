-- ===== src/Runtime/Runs.antt =====
-- agent/internal/runtime/runs.go: the admission of runs, their tracking and their messages. Each run
-- is a goroutine whose atomic actions (a lock held, a channel operation, a message queued) are the
-- steps of `Steps`; the attempts of a run are those of `runWithRetries`.
pub mod Steps
pub mod Gates
pub mod Slots
pub mod Exclusion
pub mod Busy
pub mod Story
pub mod Telling
mod Tests
use Prim.Native.String.{String}
use cron_compose.Prelude.{
  ℕ, ◌+◌, ◌-◌, string_eq, bytes_eq, ◌==◌, Bool, true, false, List, [], ◌∷◌, ◌++◌, Option, none,
  some, if◌then◌else◌, ltb, Bytes,
}
use cron_compose.Prelude.Int.{pos_part}
use cron_compose.Prelude.Map.{get, put, del}
use cron_compose.Executor.Command.{Job}
use cron_compose.Executor.{Chunk, Result}
use cron_compose.Store.{JobDef}

-- `mergeEnv`: the second map is written over the first.
unfoldable pub merge_env : List (Bytes × Bytes) → List (Bytes × Bytes) → List (Bytes × Bytes)
merge_env base [] = base
merge_env base ((k, v) ∷ secrets) = merge_env (put k v base) secrets

unfoldable pub job_of : JobDef → Job
job_of def = record {
  interpreter = def.interpreter;
  script_body = def.script_body;
  env = merge_env def.env def.secrets;
  working_dir = def.working_dir;
  run_as_user = def.run_as_user;
  timeout_seconds = def.timeout_seconds;
  cpu_quota_percent = def.cpu_quota_percent;
  memory_max_mb = def.memory_max_mb;
  tasks_max = def.tasks_max;
  io_weight = def.io_weight;
}

-- What a run hands to `queue`; the times are left out.
pub data Message : Type 0 where
  run_started : (run_id job_id job_version_id trigger : String) → Message
  log_chunk : (run_id : String) → Chunk → Message
  run_finished : (run_id : String) → Result → Message

-- Where a goroutine of `executeRun` stands; in the last three it knows what it has sent.
pub data Phase : Type 0 where
  waiting admitted tracked : Phase
  running : (sent rest : List Chunk) → Result → Phase
  finished released : (sent : List Chunk) → Result → Phase

-- The locals of a goroutine; `holds` says whether its release function empties the gate.
pub record Thread : Type 0 where
  pub job_id : String
  pub def : JobDef
  pub trigger : String
  pub holds : Bool
  pub phase : Phase

-- The maps of `Runtime` that runs share: whether a gate's slot is taken, the active runs with
-- whether they were cancelled, the counts; the calls of `queue` with the message of each and whether
-- `Enqueue` returned nil; and the goroutines by run.
pub record Runs : Type 0 where
  pub gates : List (String × Bool)
  pub run_index : List (String × (String × Bool))
  pub job_busy : List (String × ℕ)
  pub calls : List (Message × Bool)
  pub threads : List (String × Thread)

-- `jobGate` makes a gate on first use, with its slot free.
unfoldable pub job_gate : String → List (String × Bool) → Bool × List (String × Bool)
job_gate job gates = elim (get job gates) [
  | none ↦ (false, put job false gates)
  | some taken ↦ (taken, gates)
]

-- What `admit` comes to in a given moment: the run goes on without a slot or with it, is refused, or
-- blocks on the channel.
pub data Admission : Type 0 where
  without_slot : Admission
  with_slot refused blocked : List (String × Bool) → Admission

on_gate : String → String → Bool × List (String × Bool) → Admission
on_gate policy job (false, gates) = with_slot (put job true gates)
on_gate policy job (true, gates) = if policy == "queue" then blocked gates else refused gates

unfoldable pub admit : String → String → List (String × Bool) → Admission
unfolding on_gate
admit policy job gates =
    if policy == "allow" then without_slot else on_gate policy job (job_gate job gates)

-- The release function of a run that holds the slot.
unfoldable pub free_slot : Bool → String → List (String × Bool) → List (String × Bool)
free_slot holds job gates = if holds then put job false gates else gates

unfoldable pub busy : String → List (String × ℕ) → ℕ
busy job counts = elim (get job counts) [ none ↦ 0 | some n ↦ n ]

unfoldable pub track_run : String → String → Runs → Runs
unfolding busy
track_run run job s = record s {
  run_index = put run (job, false) s.run_index;
  job_busy = put job (busy job s.job_busy + 1) s.job_busy;
}

unfoldable pub release_run : String → String → Runs → Runs
unfolding busy
release_run run job s = record s {
  run_index = del run s.run_index;
  job_busy =
      if ltb 0 (busy job s.job_busy)
      then put job (busy job s.job_busy - 1) s.job_busy
      else s.job_busy;
}

unfoldable pub cancel_run : String → Runs → Runs
cancel_run run s = elim (get run s.run_index) [
  | none ↦ s
  | some (job, stopped) ↦ record s { run_index = put run (job, true) s.run_index }
]
