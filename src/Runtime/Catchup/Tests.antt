-- ===== src/Runtime/Catchup/Tests.antt =====
-- Schedules of one period, and the theorems at concrete inputs.
use Prim.Native.String.{String}
use cron_compose.Prelude.{
  ℕ, zero, suc, ◌+◌, ◌<◌, string_eq, ◌==◌, ◌≡◌, ◌⊎◌, inl, inr, refl, false, List, [], ◌∷◌, some,
  All, if◌then◌else◌, arith,
}
use cron_compose.Prelude.Map.{get, put, del}
use cron_compose.Store.Memory as Dir
use cron_compose.Store.Encoding.{json_states, nightly, encode_states, decode_states}
use cron_compose.Store.{JobDef, save_state, load_state}
use cron_compose.Runtime.Catchup.Schedules.{ScheduleLib}
use cron_compose.Runtime.Catchup.Windows.{Missed, missed_windows-Missed}
use cron_compose.Runtime.Catchup.Fires.{fresh, reloaded, HasFired, Keeps, record_fire_lem}
use cron_compose.Runtime.Catchup.{
  History, windows, missed_windows, load_history, stamp_fire, save_snapshot, Section, stamp, save,
  run_sections,
}

abbrev next_of : ℕ → ℕ → ℕ
next_of zero t = 0
next_of (suc n) t = t + suc n

next_of_lem : (s t : ℕ) → (next_of s t ≡ 0) ⊎ (t < next_of s t)
next_of_lem zero t = inl refl
next_of_lem (suc n) t = inr (omega arith)

-- A schedule is its period, and 0 has no time.
abbrev periods : ScheduleLib
periods = record {
  Schedule = ℕ;
  parse = λ spec. if spec == "0 0 30 2 *" then some 0 else some 10;
  next_after = λ s tz t. next_of s t;
  next_after_lem = λ s tz t. next_of_lem s t;
}

abbrev every_window : JobDef
every_window = record nightly { catchup_policy = "all" }

abbrev impossible : JobDef
impossible = record nightly { schedule_cron = "0 0 30 2 *"; catchup_policy = "all" }

three_missed : missed_windows periods every_window 100 135 ≡ 110 ∷ 120 ∷ 130 ∷ []
unfolding missed_windows windows
three_missed = refl

missed_windows-Missed_example :
    Missed periods 20 10 "UTC" 100 135 (missed_windows periods every_window 100 135)
missed_windows-Missed_example = missed_windows-Missed periods every_window 10 100 135 refl

abbrev history : History Dir.memory json_states
history = fresh Dir.memory json_states (false, [])

abbrev job_a : String
job_a = "a"

-- An earlier fire is saved between the sections of the run, and a later one behind them.
abbrev others : List (Section Dir.memory json_states)
others = save (("a", 130) ∷ []) ∷ []

abbrev later : List (Section Dir.memory json_states)
later = stamp "a" 140 ∷ save (("a", 140) ∷ []) ∷ []

later-Keeps : All (Keeps Dir.memory json_states "a" 135) later
unfolding get
later-Keeps = (tt, ((140, refl, omega arith), tt))

record_fire_lem_example :
    let (m, h1) = stamp_fire Dir.memory json_states "a" 135 history in
    let h3 =
      save_snapshot Dir.memory json_states m (run_sections Dir.memory json_states others h1) in
    ((k : String)
      → get k (reloaded Dir.memory json_states h3)
        ≡ (if job_a == k then some 135 else get k (load_history Dir.memory json_states history).0))
    × HasFired Dir.memory json_states 135
        (get "a" (reloaded Dir.memory json_states (run_sections Dir.memory json_states later h3)))
unfolding load_history stamp_fire run_sections save_snapshot save_state load_state encode_states
    Dir.write Dir.rename get put del decode_states
record_fire_lem_example =
    record_fire_lem Dir.memory json_states "a" 135 history others later refl later-Keeps

-- A copy that was made before a later fire and is saved after it takes that fire out of the file again.
fire_lost :
    let (m, h1) = stamp_fire Dir.memory json_states "a" 135 history in
    let h2 = run_sections Dir.memory json_states (stamp "a" 140 ∷ save (("a", 140) ∷ []) ∷ []) h1 in
    (get "a" (reloaded Dir.memory json_states h2) ≡ some 140)
    × (get "a" (reloaded Dir.memory json_states (save_snapshot Dir.memory json_states m h2))
        ≡ some 135)
unfolding load_history run_sections stamp_fire save_snapshot save_state load_state encode_states
    Dir.write Dir.rename get put del decode_states
fire_lost = (refl, refl)
