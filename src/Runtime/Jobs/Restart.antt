-- ===== src/Runtime/Jobs/Restart.antt =====
-- A restart of the agent, `LoadJobs` and `applyCachedJobs` of agent/internal/runtime, after a sync.
use Prim.Native.String.{String}
use cron_compose.Prelude.{string_eq, ◌≡◌, refl, Bool, true, List, [], some}
use cron_compose.Prelude.Map.{get}
use cron_compose.Scheduler.Cron.{CronLib}
use cron_compose.Scheduler.Plan.{IsConsistent}
use cron_compose.Scheduler.Sync.{empty-IsConsistent}
use cron_compose.Scheduler.{Scheduler, apply, empty}
use cron_compose.Store.Files.{Disk, Codec}
use cron_compose.Store.{JobDef, save_jobs, load_jobs}
use cron_compose.Runtime.Messages.{SyncJobs}
use cron_compose.Runtime.Jobs.Merge.{IsJobSet, get-add_cached_empty}
use cron_compose.Runtime.Jobs.Sync.{
  Follows, Reschedules, without_error, with_error, apply-Reschedules, apply_sync-Synced,
}
use cron_compose.Runtime.Jobs.{
  Agent, apply_sync, apply_cached_jobs, rescheduled, merge, values, add_cached, to_scheduler_jobs,
}

module _ (lib : CronLib) (d : Disk) (json : Codec (List JobDef)) where
  open d use {State}

  -- The agent of a new process, before it loads anything.
  abbrev pub started : State → Agent lib d json
  started st = record { jobs = []; disk = st; sched = empty lib; acks = [] }

  -- `load_jobs` and `apply_cached_jobs` on the file of an earlier process, when both succeed.
  pub record Restored (jobs : List (String × JobDef)) (st : State) : Type 0 where
    pub cached : List JobDef
    pub loads : load_jobs d json st ≡ some cached
    pub agent : Agent lib d json
    pub applies : apply_cached_jobs lib d json cached (started st) ≡ some agent
    pub same : (id : String) → get id agent.jobs ≡ get id jobs
    pub follows : Follows lib jobs agent.sched

  load_jobs-Restored :
      (jobs : List (String × JobDef)) (st : State)
      → IsJobSet jobs
      → load_jobs d json st ≡ some (values jobs)
      → Restored jobs st
  unfolding apply_cached_jobs rescheduled
  load_jobs-Restored jobs st h l =
      from (apply-Reschedules lib jobs (empty lib) h (empty-IsConsistent lib))
    where
      after : Scheduler lib → Agent lib d json
      after sched = record {
        jobs = add_cached (values jobs) [];
        disk = st;
        sched = sched;
        acks = [];
      }

      from :
          Reschedules lib jobs (apply lib (to_scheduler_jobs (values jobs)) (empty lib))
          → Restored jobs st
      from (without_error sched e f) = record {
        cached = values jobs;
        loads = l;
        agent = after sched;
        applies = rw e refl;
        same = λ id. get-add_cached_empty jobs id h;
        follows = f;
      }
      from (with_error sched e f) = record {
        cached = values jobs;
        loads = l;
        agent = after sched;
        applies = rw e refl;
        same = λ id. get-add_cached_empty jobs id h;
        follows = f;
      }

  -- If the save of a sync returned nil, a process started on the agent's files loads them without an
  -- error, does not crash, and ends with the same job set as the agent after the sync and a scheduler
  -- that follows it.
  pub sync-Restored :
      (kept : Bool) (s : SyncJobs) (a : Agent lib d json)
      → IsJobSet a.jobs
      → IsConsistent lib a.sched
      → (save_jobs d json (values (merge s a.jobs)) a.disk).1 ≡ true
      → (a' : Agent lib d json) × (apply_sync lib d json kept s a ≡ some a')
        × Restored a'.jobs a'.disk
  sync-Restored kept s a h v saved =
      let (a', e, r) = apply_sync-Synced lib d json kept s a h v in
      (
        a',
        e,
        load_jobs-Restored a'.jobs a'.disk r.set (rw r.written (r.file.new (rw r.merged saved))),
      )
