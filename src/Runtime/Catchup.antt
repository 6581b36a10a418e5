-- ===== src/Runtime/Catchup.antt =====
-- agent/internal/runtime/catchup.go: the windows that jobs missed while the agent was not running.
-- Times are numbers, the zero time is 0; runs are requests in the order in which they are made.
pub mod Schedules
pub mod Windows
pub mod Fires
pub mod Policy
mod Tests
use Prim.Native.String.{String}
use cron_compose.Prelude.{
  ℕ, zero, suc, string_eq, nat_eq, ◌==◌, Bool, true, false, not, ◌||◌, List, [], ◌∷◌, ◌++◌, Option,
  none, some, if◌then◌else◌, ltb, length,
}
use cron_compose.Prelude.Map.{get, put}
use cron_compose.Store.Files.{Disk, StateCodec}
use cron_compose.Store.{JobDef, JobStates, load_state, save_state}
use Schedules.{ScheduleLib}

abbrev pub max_catchup_runs : ℕ
max_catchup_runs = 20

-- What the catch-up asks for.
pub data Request : Type 0 where
  record_at : String → ℕ → Request
  run_job : String → Request

module _ (lib : ScheduleLib) where
  open lib use {Schedule, parse, next_after}

  -- The loop, with the number of windows that may still be listed.
  unfoldable pub windows : ℕ → Schedule → String → ℕ → ℕ → List ℕ
  windows zero sched tz cursor now = []
  windows (suc left) sched tz cursor now =
      let next = next_after sched tz cursor in
      let rest = windows left sched tz next now in if ltb next now then next ∷ rest else []

  unfoldable pub missed_windows : JobDef → ℕ → ℕ → List ℕ
  unfolding windows
  missed_windows def last now = elim (parse def.schedule_cron) [
    | none ↦ []
    | some sched ↦ windows max_catchup_runs sched def.timezone last now
  ]

  for_each : List ℕ → String → List Request
  for_each [] id = []
  for_each (w ∷ ws) id = run_job id ∷ for_each ws id

  by_policy : String → String → List ℕ → List Request
  unfolding for_each
  by_policy policy id [] = []
  by_policy policy id (w ∷ ws) =
      if policy == "once"
      then run_job id ∷ []
      else (if policy == "all" then for_each (w ∷ ws) id else [])

  -- The body of the loop over the jobs; 0 is a job that never fired.
  unfoldable pub catchup_job : JobStates → ℕ → JobDef → List Request
  unfolding by_policy
  catchup_job states now def =
      let last : ℕ = elim (get def.id states) [ none ↦ 0 | some t ↦ t ] in
      if not def.enabled || def.catchup_policy == "skip" || def.catchup_policy == ""
      then []
      else (if last == 0
          then record_at def.id now ∷ []
          else by_policy def.catchup_policy def.id (missed_windows def last now))

  unfoldable pub run_catchup : JobStates → ℕ → List JobDef → List Request
  unfolding catchup_job
  run_catchup states now [] = []
  run_catchup states now (def ∷ jobs) = catchup_job states now def ++ run_catchup states now jobs

module _ (d : Disk) (json : StateCodec) where
  open d use {State}

  -- `r.state`, `none` until it was loaded, and the files.
  pub record History : Type 0 where
    pub loaded : Option JobStates
    pub disk : State

  abbrev states_of : History → JobStates
  states_of h = elim h.loaded [ none ↦ load_state d json h.disk | some m ↦ m ]

  -- `loadState`.
  unfoldable pub load_history : History → JobStates × History
  load_history h = (states_of h, record h { loaded = some (states_of h) })

  -- The two critical sections of `recordFire`: under `stateMu` the fire is stamped and the map copied,
  -- and behind the unlock the copy is saved, whose error is logged. Each run of a job is a goroutine of
  -- its own, so sections of others may come between the two.
  unfoldable pub stamp_fire : String → ℕ → History → JobStates × History
  stamp_fire job at h = let m = put job at (states_of h) in (m, record h { loaded = some m })

  unfoldable pub save_snapshot : JobStates → History → History
  save_snapshot m h = record h { disk = (save_state d json m h.disk).0 }

  -- A section of some goroutine, with the copy that it saves.
  pub data Section : Type 0 where
    stamp : String → ℕ → Section
    save : JobStates → Section

  unfoldable pub run_section : Section → History → History
  unfolding stamp_fire save_snapshot
  run_section (stamp job at) h = (stamp_fire job at h).1
  run_section (save m) h = save_snapshot m h

  unfoldable pub run_sections : List Section → History → History
  unfolding run_section
  run_sections [] h = h
  run_sections (x ∷ xs) h = run_sections xs (run_section x h)
