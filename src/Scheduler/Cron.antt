-- ===== src/Scheduler/Cron.antt =====
-- What agent/internal/scheduler/scheduler.go takes from github.com/robfig/cron: an instance holds
-- entries under ids, `AddFunc` refuses an expression that does not parse and otherwise adds one
-- entry under an id that is not in use, `Remove` takes an entry out, and only an instance that
-- was started fires.
use Prim.Native.String.{String}
use cron_compose.Prelude.{
  ℕ, nat_eq, ◌==◌, ◌≡◌, Bool, true, false, Option, none, some, if◌then◌else◌,
}

pub record CronLib : Type 1 where
  pub Cron : Type 0
  -- A fresh instance for the location of a timezone.
  pub new : String → Cron
  -- The expression and the job that the callback fires.
  pub lookup : Cron → ℕ → Option (String × String)
  pub add_func : String → String → Cron → Option (Cron × ℕ)
  pub remove : ℕ → Cron → Cron
  -- Whether the expression parses, the one thing that `AddFunc` refuses for.
  pub parses : String → Bool
  pub start : Cron → Cron
  pub stop : Cron → Cron
  pub running : Cron → Bool
  pub lookup-new : (tz : String) (id : ℕ) → lookup (new tz) id ≡ none
  pub add_func_refused :
      (spec job : String) (c : Cron) → add_func spec job c ≡ none → parses spec ≡ false
  pub add_func_parses :
      (spec job : String) (c c' : Cron) (id : ℕ)
      → add_func spec job c ≡ some (c', id)
      → parses spec ≡ true
  pub add_func_fresh :
      (spec job : String) (c c' : Cron) (id : ℕ)
      → add_func spec job c ≡ some (c', id)
      → lookup c id ≡ none
  pub lookup-add_func :
      (spec job : String) (c c' : Cron) (id i : ℕ)
      → add_func spec job c ≡ some (c', id)
      → lookup c' i ≡ (if id == i then some (spec, job) else lookup c i)
  pub lookup-remove :
      (id i : ℕ) (c : Cron) → lookup (remove id c) i ≡ (if id == i then none else lookup c i)
  pub lookup-start : (i : ℕ) (c : Cron) → lookup (start c) i ≡ lookup c i
  pub lookup-stop : (i : ℕ) (c : Cron) → lookup (stop c) i ≡ lookup c i
  pub running-new : (tz : String) → running (new tz) ≡ false
  pub running-add_func :
      (spec job : String) (c c' : Cron) (id : ℕ)
      → add_func spec job c ≡ some (c', id)
      → running c' ≡ running c
  pub running-remove : (id : ℕ) (c : Cron) → running (remove id c) ≡ running c
  pub running-start : (c : Cron) → running (start c) ≡ true
  pub running-stop : (c : Cron) → running (stop c) ≡ false
