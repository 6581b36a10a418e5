-- ===== src/Deploy/Flow/Released.antt =====
-- What the waves of a flow do before and after the swap of the release.
use cron_compose.Prelude.{
  ◌≡◌, refl, Bool, true, false, List, [], ◌∷◌, Option, none, some, Bytes, arith, All, All-append,
}
use cron_compose.Deploy.Plan.{App, Task, Project}
use cron_compose.Deploy.Acts.{Job, Run, Host, fail_with, each, each_joined, Failure}
use cron_compose.Deploy.Acts.Histories.{starts_part}
use cron_compose.Deploy.Acts.Sound.{
  Sound, IsQuiet, nothing-Sound, fail_with-Sound, and_then-Sound, and_then-IsQuiet,
}
use cron_compose.Deploy.Stages.{check_health}
use cron_compose.Deploy.Stages.Sound.{
  run_app_scripts-Sound, run_app_scripts-IsQuiet, run_apps-Sound, start_apps-Sound,
  check_health-Sound,
}
use cron_compose.Deploy.Flow.{
  TaskPhase, install, build, cleanup, pre_start, run, start, health, unknown, is_post_release,
  task_phase, phase_of, needs, by_name, Wave, Planned, refused, planned, add_job, no_wave, add_task,
  add_named, on_planned, plan_tasks, if_released, run_planned, run_flow_wave,
}

module _ (host : Host) (cmd : Project) where
  if_released-Sound :
      (b : Bool) (apps : List App) (f : Failure) (r : Run Failure)
      → Sound r
      → Sound (if_released host cmd b apps f r)
  if_released-Sound b [] f r s = nothing-Sound
  if_released-Sound true (a ∷ apps) f r s = s
  if_released-Sound false (a ∷ apps) f r s = fail_with-Sound (some f)

  if_released-IsQuiet :
      (apps : List App) (f : Failure) (r : Run Failure)
      → IsQuiet (if_released host cmd false apps f r)
  if_released-IsQuiet [] f r h g = g
  if_released-IsQuiet (a ∷ apps) f r h g = g

  no_probes : IsQuiet (check_health host cmd [])
  unfolding check_health each_joined each
  no_probes h g = g

  module _ (current : Bytes) where
    run_planned-Sound : (b : Bool) (w : Wave) → Sound (run_planned host cmd current b w)
    unfolding run_planned
    run_planned-Sound b w = and_then-Sound _ _ _ (run_app_scripts-Sound host w.jobs) (
        and_then-Sound _ _ _
          (if_released-Sound b w.runs _ _
            (and_then-Sound _ _ _ (run_apps-Sound host cmd current w.runs) nothing-Sound))
          (and_then-Sound _ _ _
            (if_released-Sound b w.starts _ _
              (and_then-Sound _ _ _ (start_apps-Sound host cmd current w.starts) nothing-Sound))
            (and_then-Sound _ _ _ (check_health-Sound host cmd current w.probes) nothing-Sound)))

    -- The scripts of a wave that has no task of a phase behind the release.
    record IsEarly (w : Wave) : Type 0 where
      jobs : All (λ j. starts_part j.part ≡ false) w.jobs
      probes : w.probes ≡ []

    run_planned-IsQuiet : (w : Wave) → IsEarly w → IsQuiet (run_planned host cmd current false w)
    unfolding run_planned
    run_planned-IsQuiet w early =
        and_then-IsQuiet _ _ _ (run_app_scripts-IsQuiet host w.jobs early.jobs) (
          and_then-IsQuiet _ _ _ (if_released-IsQuiet w.runs _ _) (
            and_then-IsQuiet _ _ _ (if_released-IsQuiet w.starts _ _)
              (and_then-IsQuiet _ _ _ (λ h g. rw early.probes (no_probes h g)) (λ h g. g))))

    abbrev EarlyPlan : Planned → Type 0
    EarlyPlan (refused f) = Unit
    EarlyPlan (planned w) = IsEarly w

    add_job-IsEarly :
        (body : Bytes) (j : Job) (w : Wave)
        → starts_part j.part ≡ false
        → IsEarly w
        → IsEarly (add_job body j w)
    add_job-IsEarly [] j w n e = record {
      jobs = All-append (λ i. starts_part i.part ≡ false) w.jobs [] e.jobs tt;
      probes = e.probes;
    }
    add_job-IsEarly (c ∷ body) j w n e = record {
      jobs = All-append (λ i. starts_part i.part ≡ false) w.jobs (j ∷ []) e.jobs (n, tt);
      probes = e.probes;
    }

    add_task-IsEarly :
        (root : Bytes) (t : Task) (ph : TaskPhase) (a : App) (w : Wave)
        → is_post_release ph ≡ false
        → IsEarly w
        → EarlyPlan (add_task host cmd root t ph a w)
    unfolding add_task
    add_task-IsEarly root t install a w n e = add_job-IsEarly _ _ w refl e
    add_task-IsEarly root t build a w n e = add_job-IsEarly _ _ w refl e
    add_task-IsEarly root t cleanup a w n e = add_job-IsEarly _ _ w refl e
    add_task-IsEarly root t pre_start a w n e = cc
    add_task-IsEarly root t run a w n e = cc
    add_task-IsEarly root t start a w n e = cc
    add_task-IsEarly root t health a w n e = cc
    add_task-IsEarly root t unknown a w n e = tt

    add_named-IsEarly :
        (root : Bytes) (t : Task) (o : Option App) (w : Wave)
        → is_post_release (task_phase (phase_of t)) ≡ false
        → IsEarly w
        → EarlyPlan (add_named host cmd root t o w)
    unfolding add_named
    add_named-IsEarly root t none w n e = tt
    add_named-IsEarly root t (some a) w n e =
        add_task-IsEarly root t (task_phase (phase_of t)) a w n e

    on_planned-IsEarly :
        (p : Planned) (next : Wave → Planned)
        → EarlyPlan p
        → ((w : Wave) → IsEarly w → EarlyPlan (next w))
        → EarlyPlan (on_planned host cmd p refused next)
    on_planned-IsEarly (refused f) next e k = tt
    on_planned-IsEarly (planned w) next e k = k w e

    plan_tasks-IsEarly :
        (root : Bytes) (apps : List App) (ts : List Task) (w : Wave)
        → needs is_post_release ts ≡ false
        → IsEarly w
        → EarlyPlan (plan_tasks host cmd root apps ts w)
    unfolding plan_tasks needs
    plan_tasks-IsEarly root apps [] w n e = e
    plan_tasks-IsEarly root apps (t ∷ ts) w n e =
        on_planned-IsEarly (add_named host cmd root t (by_name t.app apps) w)
          (plan_tasks host cmd root apps ts)
          (add_named-IsEarly root t (by_name t.app apps) w (ground (arith, n)) e)
          (λ v k. plan_tasks-IsEarly root apps ts v (ground (arith, n)) k)

    on_planned-Sound :
        (b : Bool) (p : Planned)
        → Sound (on_planned host cmd p (λ f. fail_with (some f)) (run_planned host cmd current b))
    on_planned-Sound b (refused f) = fail_with-Sound (some f)
    on_planned-Sound b (planned w) = run_planned-Sound b w

    pub run_flow_wave-Sound :
        (root : Bytes) (b : Bool) (apps : List App) (ts : List Task)
        → Sound (run_flow_wave host cmd root current b apps ts)
    unfolding run_flow_wave
    run_flow_wave-Sound root b apps ts =
        on_planned-Sound b (plan_tasks host cmd root apps ts no_wave)

    on_planned-IsQuiet :
        (p : Planned)
        → EarlyPlan p
        → IsQuiet
            (on_planned host cmd p (λ f. fail_with (some f)) (run_planned host cmd current false))
    on_planned-IsQuiet (refused f) e h g = g
    on_planned-IsQuiet (planned w) e h g = run_planned-IsQuiet w e h g

    -- A wave without such a task does nothing that needs a live release.
    pub run_flow_wave-IsQuiet :
        (root : Bytes) (apps : List App) (ts : List Task)
        → needs is_post_release ts ≡ false
        → IsQuiet (run_flow_wave host cmd root current false apps ts)
    unfolding run_flow_wave
    run_flow_wave-IsQuiet root apps ts n =
        on_planned-IsQuiet (plan_tasks host cmd root apps ts no_wave)
          (plan_tasks-IsEarly root apps ts no_wave n (record { jobs = tt; probes = refl }))
