-- ===== src/Runtime/Catchup/Policy.antt =====
-- `runCatchup` of agent/internal/runtime/catchup.go: how many runs the policy of a job allows.
use Prim.Native.String.{String}
use cron_compose.Prelude.{
  ℕ, suc, ◌≤◌, string_eq, nat_eq, ◌==◌, ◌≡◌, refl, Bool, true, false, not, ◌||◌, List, [], ◌∷◌,
  Option, none, some, if◌then◌else◌, length, arith, Bool-cases, Option-cases, inl, inr,
}
use cron_compose.Prelude.Map.{get}
use cron_compose.Store.{JobDef, JobStates}
use cron_compose.Runtime.Catchup.Schedules.{ScheduleLib}
use cron_compose.Runtime.Catchup.Windows.{missed_windows-Missed}
use cron_compose.Runtime.Catchup.{
  Request, record_at, run_job, max_catchup_runs, missed_windows, for_each, by_policy, catchup_job,
}

-- How many runs are asked for.
abbrev pub runs : List Request → ℕ
runs [] = 0
runs (record_at id t ∷ rs) = runs rs
runs (run_job id ∷ rs) = suc (runs rs)

-- How many runs a policy allows at most.
abbrev pub allowance : String → ℕ
allowance policy = if policy == "once" then 1 else (if policy == "all" then max_catchup_runs else 0)

module _ (lib : ScheduleLib) where
  runs-for_each : (ws : List ℕ) (id : String) → runs (for_each lib ws id) ≡ length ws
  unfolding for_each
  runs-for_each [] id = refl
  runs-for_each (w ∷ ws) id = omega (arith, runs-for_each ws id)

  runs-by_policy :
      (policy id : String) (ws : List ℕ)
      → length ws ≤ max_catchup_runs
      → runs (by_policy lib policy id ws) ≤ allowance policy
  unfolding by_policy
  runs-by_policy policy id [] h = omega arith
  runs-by_policy policy id (w ∷ ws) h = elim (Bool-cases (policy == "once")) [
    | inl once ↦ rw once (omega arith)
    | inr other ↦ rw other (by_all (policy == "all"))
  ]
    where
      by_all :
          (b : Bool)
          → runs (if b then for_each lib (w ∷ ws) id else []) ≤ (if b then max_catchup_runs else 0)
      by_all true = omega (arith, h, runs-for_each (w ∷ ws) id)
      by_all false = omega arith

  missed_at_most :
      (def : JobDef) (last now : ℕ) → length (missed_windows lib def last now) ≤ max_catchup_runs
  unfolding missed_windows
  missed_at_most def last now = elim (Option-cases (lib.parse def.schedule_cron)) [
    | inl e ↦ no_schedule def last now e
    | inr (s, e) ↦ (missed_windows-Missed lib def s last now e).at_most
  ]
    where
      no_schedule :
          (def : JobDef) (last now : ℕ)
          → lib.parse def.schedule_cron ≡ none
          → length (missed_windows lib def last now) ≤ max_catchup_runs
      no_schedule def last now e = rw (e, missed_windows) (omega arith)

  -- However many windows a job missed, the catch-up asks for one run at most under the policy "once",
  -- for 20 at most under "all", and for none under any other.
  pub catchup_job-runs :
      (states : JobStates) (now : ℕ) (def : JobDef)
      → runs (catchup_job lib states now def) ≤ allowance def.catchup_policy
  unfolding catchup_job
  catchup_job-runs states now def =
      by_tests (not def.enabled || def.catchup_policy == "skip" || def.catchup_policy == "")
        (last_of (get def.id states) == 0) (last_of (get def.id states))
    where
      last_of : Option ℕ → ℕ
      last_of o = elim o [ none ↦ 0 | some t ↦ t ]

      by_tests :
          (skip first : Bool) (last : ℕ)
          → runs (
              if skip
              then []
              else (if first
                  then record_at def.id now ∷ []
                  else by_policy lib def.catchup_policy def.id (missed_windows lib def last now)))
            ≤ allowance def.catchup_policy
      by_tests true first last = omega arith
      by_tests false true last = omega arith
      by_tests false false last =
          runs-by_policy def.catchup_policy def.id (missed_windows lib def last now)
            (missed_at_most def last now)
