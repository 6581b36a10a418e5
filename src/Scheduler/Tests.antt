-- ===== src/Scheduler/Tests.antt =====
-- Runs of the scheduler over a cron library in memory, and the theorems at concrete inputs.
use Prim.Native.String.{String}
use cron_compose.Prelude.{nat_eq, string_eq, ◌≡◌, refl, true, false, [], ◌∷◌, Option, none, some}
use cron_compose.Prelude.Map.{get, put, del, has}
use cron_compose.Scheduler.Plan.{plan}
use cron_compose.Scheduler.Sync.{Applies, apply-Applies, empty-IsConsistent}
use cron_compose.Scheduler.Running.{is_running, apply_each, fires, apply_after_start}
use cron_compose.Scheduler.{
  want_from, replace_entry, Scheduler, JobDef, Applied, applied, refused, apply, empty, start_all,
}
use cron_compose.Scheduler.Memory.{memory, add_func}

abbrev nightly : JobDef
nightly = record { id = "a"; schedule_cron = "0 3 * * *"; timezone = "UTC"; enabled = true }

abbrev paused : JobDef
paused = record { id = "b"; schedule_cron = "bad"; timezone = "UTC"; enabled = false }

abbrev broken : JobDef
broken = record { id = "c"; schedule_cron = "bad"; timezone = "Asia/Tokyo"; enabled = true }

plan_of : Applied (Scheduler memory) → String → Option (String × String)
plan_of (applied s) job = plan memory s job
plan_of (refused s) job = plan memory s job
plan_of _ job = none

apply-nightly :
    plan_of (apply memory (nightly ∷ paused ∷ []) (empty memory)) "a" ≡ some ("UTC", "0 3 * * *")
unfolding plan_of apply want_from replace_entry plan get put del has add_func
apply-nightly = refl

apply-paused : plan_of (apply memory (nightly ∷ paused ∷ []) (empty memory)) "b" ≡ none
unfolding plan_of apply want_from replace_entry plan get put del has add_func
apply-paused = refl

apply-Applies_example :
    Applies memory
      (nightly ∷ broken ∷ [])
      (empty memory)
      (apply memory (nightly ∷ broken ∷ []) (empty memory))
apply-Applies_example =
    apply-Applies memory (nightly ∷ broken ∷ []) (empty memory) (empty-IsConsistent memory)

abbrev after_sync : Scheduler memory
after_sync = record {
  crons = ("UTC", record { slots = some ("0 3 * * *", "a") ∷ []; started = false }) ∷ [];
  entries = ("a", ("UTC", 0)) ∷ [];
}

-- The agent starts with an empty cache, and then gets its first job.
apply_after_start_example :
    (s' : Scheduler memory) × (apply_each memory
        ((nightly ∷ []) ∷ [])
        (start_all memory (empty memory))
      ≡ some s')
    × ((job : String)
        → fires memory (is_running memory s') (plan memory s' job)
          ≡ fires memory (λ tz. has tz (empty memory).crons) (plan memory s' job))
apply_after_start_example =
    apply_after_start memory ((nightly ∷ []) ∷ []) (empty memory) (empty-IsConsistent memory)

-- It is scheduled, and does not fire.
first_job :
    apply_each memory ((nightly ∷ []) ∷ []) (start_all memory (empty memory)) ≡ some after_sync
unfolding apply_each apply want_from replace_entry start_all get put del has add_func
first_job = refl

first_job_silent :
    (plan memory after_sync "a" ≡ some ("UTC", "0 3 * * *"))
    × (is_running memory after_sync "UTC" ≡ false)
unfolding plan is_running get
first_job_silent = (refl, refl)
