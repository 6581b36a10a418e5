-- ===== src/Scheduler/Sync.antt =====
-- `Apply` of agent/internal/scheduler/scheduler.go as a whole: after it the plan is the job set.
use Prim.Native.String.{String}
use cron_compose.Prelude.{string_eq, ◌≡◌, ◌⊎◌, List, none, if◌then◌else◌, arith}
use cron_compose.Prelude.Map.{get, has}
use cron_compose.Scheduler.Cron.{CronLib}
use cron_compose.Scheduler.Plan.{plan, IsConsistent}
use cron_compose.Scheduler.Replace.{
  asked_by, Unparsable, Replaced, want_from-IsKeyed, want_from-Distinct, replace_all-Replaced,
}
use cron_compose.Scheduler.Clear.{remove_absent-Cleared, remove_absent_all}
use cron_compose.Scheduler.{Scheduler, JobDef, Applied, applied, refused, want_of, apply, empty}

module _ (lib : CronLib) where
  -- How `Apply` may return. It never crashes; the schedule is then exactly what the job set asks
  -- for, or some enabled job of the set has an expression that does not parse, and each job is
  -- scheduled as it was, as it should be, or not at all, and those not in the set not at all.
  pub data Applies (jobs : List JobDef) (s : Scheduler lib) (r : Applied (Scheduler lib))
      : Type 0 where
    done :
        (s' : Scheduler lib)
        → r ≡ applied s'
        → IsConsistent lib s'
        → ((job : String) → plan lib s' job ≡ asked_by (get job (want_of jobs)) none)
        → Applies jobs s r
    bad_schedule :
        (s' : Scheduler lib)
        → r ≡ refused s'
        → IsConsistent lib s'
        → Unparsable lib (want_of jobs)
        → ((job : String)
            → (plan lib s' job ≡ (if has job (want_of jobs) then plan lib s job else none))
              ⊎ ((plan lib s' job ≡ asked_by (get job (want_of jobs)) none)
                  ⊎ (plan lib s' job ≡ none)))
        → Applies jobs s r

  module _ (jobs : List JobDef) (s s1 : Scheduler lib)
      (cleared : (job : String)
        → plan lib s1 job ≡ (if has job (want_of jobs) then plan lib s job else none)) where
    then-Replaced :
        {r : Applied (Scheduler lib)}
        → Replaced lib (want_of jobs) (plan lib s1) r
        → Applies jobs s r
    unfolding has
    then-Replaced (Replaced.done s' e v q) = done s' e v λ job. ground (arith, q job, cleared job)
    then-Replaced (Replaced.bad_schedule s' e v u q) =
        bad_schedule s' e v u λ job. ground (arith, q job, cleared job)

  -- `Apply` on a consistent scheduler returns one of these, and leaves it consistent: exactly one
  -- entry for each scheduled job, in its timezone's instance, and no other entry.
  pub apply-Applies :
      (jobs : List JobDef) (s : Scheduler lib)
      → IsConsistent lib s
      → Applies jobs s (apply lib jobs s)
  unfolding apply
  apply-Applies jobs s v =
      let w = want_of jobs in
      let c = remove_absent-Cleared lib w s.entries s v.distinct (λ id e h. h) v in
      let r =
        replace_all-Replaced lib w c.state (want_from-IsKeyed jobs _ tt)
          (want_from-Distinct jobs _ tt) c.consistent in
      rw c.returns
        (then-Replaced jobs s c.state (λ job. remove_absent_all lib w s job _ (c.plan_lem job)) r)

  pub empty-IsConsistent : IsConsistent lib (empty lib)
  unfolding get
  empty-IsConsistent = record {
    armed = λ job tz id e. cc;
    owned = λ tz c id spec job p h. cc;
    distinct = tt;
  }
