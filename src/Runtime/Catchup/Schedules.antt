-- ===== src/Runtime/Catchup/Schedules.antt =====
-- What agent/internal/runtime/catchup.go takes from github.com/robfig/cron: the parser, and the next
-- time of a schedule in a timezone, which is later than the given one, or the zero time where the
-- library finds none within five years.
use Prim.Native.String.{String}
use cron_compose.Prelude.{ℕ, ◌<◌, ◌≡◌, ◌⊎◌, Option}

pub record ScheduleLib : Type 1 where
  pub Schedule : Type 0
  pub parse : String → Option Schedule
  pub next_after : Schedule → String → ℕ → ℕ
  pub next_after_lem :
      (s : Schedule) (tz : String) (t : ℕ) → (next_after s tz t ≡ 0) ⊎ (t < next_after s tz t)
