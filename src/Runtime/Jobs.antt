-- ===== src/Runtime/Jobs.antt =====
-- agent/internal/runtime/sync.go: the agent's job set in memory, in the file and in the scheduler.
-- The slice that is built from the map follows the map's list, one of the orders that Go may take.
pub mod Merge
pub mod Sync
pub mod Restart
mod Tests
use Prim.Native.String.{String}
use cron_compose.Prelude.{
  ℕ, string_eq, Bool, true, false, List, [], ◌∷◌, ◌++◌, Option, none, some, if◌then◌else◌, map,
}
use cron_compose.Prelude.Map.{put, del}
use cron_compose.Scheduler.Cron.{CronLib}
use cron_compose.Scheduler.{Scheduler, Applied, applied, refused, crashed, apply}
use cron_compose.Scheduler as Sched
use cron_compose.Store.Files.{Disk, Codec}
use cron_compose.Store.{JobDef, save_jobs}
use cron_compose.Runtime.Messages.{JobDefMsg, SyncJobs}

unfoldable pub proto_to_store : JobDefMsg → JobDef
proto_to_store d = record {
  id = d.id;
  version_id = d.version_id;
  name = d.name;
  interpreter = d.interpreter;
  script_body = d.script_body;
  schedule_cron = d.schedule_cron;
  timezone = d.timezone;
  enabled = d.enabled;
  timeout_seconds = d.timeout_seconds;
  concurrency_policy = d.concurrency_policy;
  catchup_policy = d.catchup_policy;
  max_retries = d.max_retries;
  working_dir = d.working_dir;
  run_as_user = d.run_as_user;
  env = d.env;
  secrets = d.secrets;
  cpu_quota_percent = d.cpu_quota_percent;
  memory_max_mb = d.memory_max_mb;
  tasks_max = d.tasks_max;
  io_weight = d.io_weight;
}

unfoldable pub to_scheduler_job : JobDef → Sched.JobDef
to_scheduler_job j = record {
  id = j.id;
  schedule_cron = j.schedule_cron;
  timezone = j.timezone;
  enabled = j.enabled;
}

unfoldable pub to_scheduler_jobs : List JobDef → List Sched.JobDef
to_scheduler_jobs jobs = map to_scheduler_job jobs

unfoldable pub upsert_all : List JobDefMsg → List (String × JobDef) → List (String × JobDef)
upsert_all [] jobs = jobs
upsert_all (d ∷ ds) jobs = upsert_all ds (put d.id (proto_to_store d) jobs)

unfoldable pub delete_all : List String → List (String × JobDef) → List (String × JobDef)
delete_all [] jobs = jobs
delete_all (id ∷ ids) jobs = delete_all ids (del id jobs)

-- What happens to `r.jobs` under the lock.
unfoldable pub merge : SyncJobs → List (String × JobDef) → List (String × JobDef)
unfolding upsert_all delete_all
merge s jobs = delete_all s.delete (upsert_all s.upsert (if s.full_snapshot then [] else jobs))

unfoldable pub values : List (String × JobDef) → List JobDef
values jobs = map (λ e. e.1) jobs

unfoldable pub add_cached : List JobDef → List (String × JobDef) → List (String × JobDef)
add_cached [] jobs = jobs
add_cached (j ∷ cached) jobs = add_cached cached (put j.id j jobs)

module _ (lib : CronLib) (d : Disk) (json : Codec (List JobDef)) where
  open d use {State}

  -- The parts of `Runtime` that a sync works on; `acks` are the cursors of the queued `ConfigAck`s.
  pub record Agent : Type 0 where
    pub jobs : List (String × JobDef)
    pub disk : State
    pub sched : Scheduler lib
    pub acks : List ℕ

  -- An error of the scheduler is logged; a crash ends the process.
  rescheduled : Agent → Applied (Scheduler lib) → Option Agent
  rescheduled a (applied sched) = some (record a { sched = sched })
  rescheduled a (refused sched) = some (record a { sched = sched })
  rescheduled a crashed = none

  -- `queue` of the `ConfigAck`, with whether `Enqueue` returns nil: if not, the message is dropped.
  abbrev pub acked : Bool → ℕ → List ℕ → List ℕ
  acked true cursor acks = acks ++ (cursor ∷ [])
  acked false cursor acks = acks

  acknowledged : Bool → ℕ → Option Agent → Option Agent
  acknowledged kept cursor none = none
  acknowledged kept cursor (some a) = some (record a { acks = acked kept cursor a.acks })

  -- `kept` is what `Enqueue` comes to at the end.
  unfoldable pub apply_sync : Bool → SyncJobs → Agent → Option Agent
  unfolding rescheduled acknowledged
  apply_sync kept s a =
      let jobs = merge s a.jobs in
      let all = values jobs in
      let stored : Agent = record a { jobs = jobs; disk = (save_jobs d json all a.disk).0 } in
      acknowledged kept s.cursor (rescheduled stored (apply lib (to_scheduler_jobs all) a.sched))

  unfoldable pub apply_cached_jobs : List JobDef → Agent → Option Agent
  unfolding rescheduled
  apply_cached_jobs cached a =
      rescheduled (record a { jobs = add_cached cached a.jobs })
        (apply lib (to_scheduler_jobs cached) a.sched)
