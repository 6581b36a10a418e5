-- ===== src/Runtime/Runs/Tests.antt =====
-- Two runs of one job, step by step, and the theorems in the states they pass.
use Prim.Native.String.{String}
use cron_compose.Prelude.{
  ℕ, string_eq, bytes_eq, ◌≡◌, ◌⊎◌, refl, Bool, true, false, List, [], ◌∷◌, none, some,
}
use cron_compose.Prelude.Int.{pos}
use cron_compose.Prelude.Map.{get, put}
use cron_compose.Executor.{Host, Result, clean, succeeded, run}
use cron_compose.Store.Encoding.{nightly}
use cron_compose.Store.{JobDef}
use cron_compose.Runtime.Retry.{run_with_retries, attempt_chunks}
use cron_compose.Runtime.Runs.Gates.{is_waiting}
use cron_compose.Runtime.Runs.Exclusion.{one_at_a_time, waiting_for}
use cron_compose.Runtime.Runs.Busy.{IsTracked, Reachable-IsTracked}
use cron_compose.Runtime.Runs.Story.{IsLog}
use cron_compose.Runtime.Runs.Telling.{Sublist, Reachable-IsLog}
use cron_compose.Runtime.Runs.Steps.{
  arrive_slot, arrive_blocked, track, begin, Reachable, start, next, own, accepted, no_runs, enter,
  send,
}
use cron_compose.Runtime.Runs.{
  run_started, Phase, waiting, admitted, tracked, running, Thread, Runs, job_gate, admit, with_slot,
  track_run, job_of,
}

abbrev queued : JobDef
queued = record nightly { concurrency_policy = "queue" }

abbrev thread : Bool → Phase → Thread
thread holds phase = record {
  job_id = "a";
  def = queued;
  trigger = "schedule";
  holds = holds;
  phase = phase;
}

abbrev r1 : String
r1 = "r1"

-- The first run takes the slot, the second one waits, the first one is tracked and begins.
abbrev one : Runs
one = enter "r1" (thread true admitted) (record no_runs { gates = ("a", true) ∷ [] })

abbrev two : Runs
two = enter "r2" (thread false waiting) one

abbrev three : Runs
three = enter "r1" (thread true tracked) (track_run "r1" "a" two)

reach_one : Reachable one
unfolding get put own job_gate admit
reach_one = next start (arrive_slot "r1" "a" "schedule" queued (("a", true) ∷ []) (refl, refl) refl)

reach_two : Reachable two
unfolding get put own job_gate admit
reach_two =
    next reach_one (arrive_blocked "r2" "a" "schedule" queued (("a", true) ∷ []) (refl, refl) refl)

reach_three : Reachable three
unfolding get put track_run
reach_three = next reach_two (track "r1" (thread true admitted) refl refl)

-- A host on which the script writes nothing and succeeds.
abbrev quiet_host : ℕ → Host
quiet_host i = record {
  user = some none;
  user_error = [];
  systemd_usable = true;
  start_error = none;
  lines = [];
  deadline = false;
  canceled = false;
  wait = clean;
}

abbrev success : Result
success = record { status = succeeded; exit_code = pos 0; err = []; notes = [] }

quiet_run : run_with_retries quiet_host (λ i. false) (job_of queued) 0 ≡ some ([], success)
unfolding run_with_retries attempt_chunks run job_of
quiet_run = refl

abbrev four : Runs
four =
    enter "r1" (thread true (running [] [] success))
      (send (run_started "r1" "a" "" "schedule") true three)

reach_four : Reachable four
unfolding get put track_run
reach_four =
    next reach_three
      (begin "r1" (thread true tracked) true quiet_host (λ i. false) [] success refl refl quiet_run)

one_at_a_time_example : r1 ≡ r1
unfolding get put track_run
one_at_a_time_example =
    one_at_a_time "r1" "r1" (thread true tracked) (thread true tracked) reach_three refl refl refl
      refl refl refl refl

waiting_for_example :
    ((gates : List (String × Bool)) × (admit "queue" "a" three.gates ≡ with_slot gates))
    ⊎ ((k : String) × (u : Thread) × (get k three.threads ≡ some u)
        × (u.job_id ≡ "a")
        × (u.holds ≡ true)
        × (is_waiting u.phase ≡ false))
unfolding get put track_run
waiting_for_example = waiting_for "r2" (thread false waiting) reach_three refl refl

Reachable-IsTracked_example : IsTracked three
Reachable-IsTracked_example = Reachable-IsTracked reach_three

Reachable-IsLog_example :
    IsLog "r1" (own "r1" four.calls) × Sublist (accepted "r1" four.calls) (own "r1" four.calls)
Reachable-IsLog_example = Reachable-IsLog "r1" reach_four
