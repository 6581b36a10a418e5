-- ===== src/Runtime/Jobs/Sync.antt =====
-- `applySync` of agent/internal/runtime/sync.go: the job set in memory, in the file and in the
-- scheduler after a sync.
use Prim.Native.String.{String}
use cron_compose.Prelude.{
  string_eq, ◌≡◌, refl, sym, ap, ◌∙◌, Bool, true, false, List, Option, none, some, if◌then◌else◌,
  arith,
}
use cron_compose.Prelude.Map.{get, has}
use cron_compose.Scheduler.Cron.{CronLib}
use cron_compose.Scheduler.Plan.{plan, IsConsistent}
use cron_compose.Scheduler.Replace.{asked_by, Unparsable}
use cron_compose.Scheduler.Sync.{Applies, apply-Applies}
use cron_compose.Scheduler as Sched
use cron_compose.Scheduler.{Scheduler, Applied, applied, refused, crashed, apply, want_of}
use cron_compose.Store.Files.{Disk, Codec}
use cron_compose.Store.Atomic.{SavesJobs, save_jobs-SavesJobs}
use cron_compose.Store.{JobDef, save_jobs}
use cron_compose.Runtime.Messages.{SyncJobs}
use cron_compose.Runtime.Jobs.Merge.{
  IsJobSet, merge-IsJobSet, said, get-merge, scheduler_view, get-want_of,
}
use cron_compose.Runtime.Jobs.{
  Agent, apply_sync, rescheduled, acked, acknowledged, merge, values, to_scheduler_jobs,
  to_scheduler_job,
}

-- When a job is to fire: a disabled job, like one that is not there, not at all.
abbrev pub due : Option JobDef → Option (String × String)
due none = none
due (some j) = if j.enabled then some (j.timezone, j.schedule_cron) else none

due_lem : (o : Option JobDef) → asked_by (scheduler_view o none) none ≡ due o
unfolding to_scheduler_job
due_lem none = refl
due_lem (some j) = refl

enabled_of : Option Sched.JobDef → Bool
enabled_of none = false
enabled_of (some j) = j.enabled

cron_of : Option Sched.JobDef → String
cron_of none = ""
cron_of (some j) = j.schedule_cron

module _ (lib : CronLib) where
  -- All enabled jobs of a set have an expression that the cron library parses.
  abbrev pub AllParse : List (String × JobDef) → Type 0
  AllParse jobs =
      (id : String) (j : JobDef)
      → get id jobs ≡ some j
      → j.enabled ≡ true
      → lib.parses j.schedule_cron ≡ true

  -- A scheduler after a call of `Apply` on a job set: it stands, and fires each job of the set that
  -- is to fire and no other if all expressions parse; a job that is not in the set never fires.
  pub record Follows (jobs : List (String × JobDef)) (sched : Scheduler lib) : Type 0 where
    pub consistent : IsConsistent lib sched
    pub planned : AllParse jobs → (id : String) → plan lib sched id ≡ due (get id jobs)
    pub gone : (id : String) → get id jobs ≡ none → plan lib sched id ≡ none

  pub data Reschedules (jobs : List (String × JobDef)) (r : Applied (Scheduler lib)) : Type 0 where
    without_error :
        (sched : Scheduler lib) → r ≡ applied sched → Follows jobs sched → Reschedules jobs r
    with_error :
        (sched : Scheduler lib) → r ≡ refused sched → Follows jobs sched → Reschedules jobs r

  parses_contra :
      (jobs : List (String × JobDef))
      → IsJobSet jobs
      → AllParse jobs
      → Unparsable lib (want_of (to_scheduler_jobs (values jobs)))
      → ⊥
  unfolding to_scheduler_job enabled_of cron_of
  parses_contra jobs h p u =
      by_job (get u.culprit.id jobs) refl (sym (get-want_of jobs u.culprit.id h) ∙ u.wanted)
    where
      by_job :
          (o : Option JobDef)
          → get u.culprit.id jobs ≡ o
          → scheduler_view o none ≡ some u.culprit
          → ⊥
      by_job none e w = ground (arith, w)
      by_job (some j) e w =
          ground (arith, p u.culprit.id j e, u.enabled, u.bad, ap enabled_of w, ap cron_of w)

  pub apply-Reschedules :
      (jobs : List (String × JobDef)) (sched : Scheduler lib)
      → IsJobSet jobs
      → IsConsistent lib sched
      → Reschedules jobs (apply lib (to_scheduler_jobs (values jobs)) sched)
  unfolding has
  apply-Reschedules jobs sched h v =
      from (apply-Applies lib (to_scheduler_jobs (values jobs)) sched v)
    where
      absent :
          (id : String)
          → get id jobs ≡ none
          → get id (want_of (to_scheduler_jobs (values jobs))) ≡ none
      absent id n = get-want_of jobs id h ∙ ap (λ o. scheduler_view o none) n

      from :
          {r : Applied (Scheduler lib)}
          → Applies lib (to_scheduler_jobs (values jobs)) sched r
          → Reschedules jobs r
      from (Applies.done s' e v' q) = without_error s' e (record {
        consistent = v';
        planned = λ p id. q id ∙ (ap (λ o. asked_by o none) (get-want_of jobs id h) ∙ due_lem _);
        gone = λ id n. q id ∙ ap (λ o. asked_by o none) (absent id n);
      })
      from (Applies.bad_schedule s' e v' u q) = with_error s' e (record {
        consistent = v';
        planned = λ p. absurd (parses_contra jobs h p u);
        gone = λ id n. ground (arith, q id, absent id n);
      })

  module _ (d : Disk) (json : Codec (List JobDef)) where
    -- The agent after a sync: the job set is what the old one and the sync say, the file holds it if
    -- the save succeeded and is as it was otherwise, the scheduler follows it, and the sync is
    -- acknowledged whatever of this failed, unless the acknowledgement itself cannot be queued.
    pub record Synced (kept : Bool) (s : SyncJobs) (a : Agent lib d json) (a' : Agent lib d json)
        : Type 0 where
      pub set : IsJobSet a'.jobs
      pub merged : a'.jobs ≡ merge s a.jobs
      pub jobs : (id : String) → get id a'.jobs ≡ said s id (get id a.jobs)
      pub file : SavesJobs d json (values a'.jobs) a.disk (save_jobs d json (values a'.jobs) a.disk)
      pub written : a'.disk ≡ (save_jobs d json (values a'.jobs) a.disk).0
      pub follows : Follows a'.jobs a'.sched
      pub acks : a'.acks ≡ acked lib d json kept s.cursor a.acks

    -- `applySync` on an agent whose job map has each definition under its own id and whose scheduler
    -- is consistent does not crash and leaves such an agent. The job set is what the sync says of
    -- each id; the file holds it if the save returned nil and is as it was otherwise; no job outside
    -- the set is scheduled, and if all enabled expressions of the set parse, exactly its enabled jobs
    -- are, each with its timezone and expression. Whatever of this failed, the acknowledgement is queued
    -- behind those before it, unless Enqueue refuses it, which drops it.
    pub apply_sync-Synced :
        (kept : Bool) (s : SyncJobs) (a : Agent lib d json)
        → IsJobSet a.jobs
        → IsConsistent lib a.sched
        → (a' : Agent lib d json) × (apply_sync lib d json kept s a ≡ some a') × Synced kept s a a'
    unfolding apply_sync rescheduled acknowledged
    apply_sync-Synced kept s a h v =
        from (apply-Reschedules (merge s a.jobs) a.sched (merge-IsJobSet s a.jobs h) v)
      where
        after : Scheduler lib → Agent lib d json
        after sched = record {
          jobs = merge s a.jobs;
          disk = (save_jobs d json (values (merge s a.jobs)) a.disk).0;
          sched = sched;
          acks = acked lib d json kept s.cursor a.acks;
        }

        synced :
            (sched : Scheduler lib) → Follows (merge s a.jobs) sched → Synced kept s a (after sched)
        synced sched f = record {
          set = merge-IsJobSet s a.jobs h;
          merged = refl;
          jobs = get-merge s a.jobs;
          file = save_jobs-SavesJobs d json (values (merge s a.jobs)) a.disk;
          written = refl;
          follows = f;
          acks = refl;
        }

        from :
            Reschedules
              (merge s a.jobs)
              (apply lib (to_scheduler_jobs (values (merge s a.jobs))) a.sched)
            → (a' : Agent lib d json) × (apply_sync lib d json kept s a ≡ some a')
              × Synced kept s a a'
        from (without_error sched e f) = (after sched, rw e refl, synced sched f)
        from (with_error sched e f) = (after sched, rw e refl, synced sched f)
