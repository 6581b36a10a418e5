-- ===== src/Deploy/Flow.antt =====
-- agent/internal/deploy/flow.go: a deploy with an explicit flow, in waves of tasks. Its lines of log are
-- left out, and the errors that quote a task or number a wave are shortened.
pub mod Released
pub mod Swap
pub mod Lawful
use cron_compose.Prelude.{
  Bool, true, false, not, ◌||◌, ◌&&◌, List, [], ◌∷◌, ◌++◌, Option, none, some, Bytes, bytes_eq,
  ◌==◌, if◌then◌else◌,
}
use cron_compose.Prelude.Text.{codes}
use cron_compose.Prelude.Strings.{trim}
use cron_compose.Deploy.Plan.{App, Task, Project}
use cron_compose.Deploy.Places.{or_default, apps_of}
use cron_compose.Deploy.Scripts.{lower, split_install_build, cleanup_script_for}
use cron_compose.Deploy.Acts.{
  Part, building, cleaning, pre_starting, Job, swap, Run, Host, perform, nothing, fail_with, settle,
  and_then, Failure, in_phase, join_errors,
}
use cron_compose.Deploy.Stages.{
  continues, with_job, job, cleanup_job, pre_start_job, run_app_scripts, start_apps, run_apps,
  check_health, finish,
}

unfoldable pub phase_of : Task → Bytes
phase_of t = lower (trim t.phase)

-- The phases that a task may name.
pub data TaskPhase : Type 0 where
  install build cleanup pre_start run start health unknown : TaskPhase

unfoldable pub task_phase : Bytes → TaskPhase
task_phase ph =
    if ph == codes "install"
    then install
    else (if ph == codes "build"
        then build
        else (if ph == codes "cleanup"
            then cleanup
            else (if ph == codes "pre_start"
                then pre_start
                else (if ph == codes "run"
                    then run
                    else (if ph == codes "start"
                        then start
                        else (if ph == codes "health" then health else unknown))))))

abbrev pub is_pre_release : TaskPhase → Bool
is_pre_release install = true
is_pre_release build = true
is_pre_release cleanup = true
is_pre_release pre_start = false
is_pre_release run = false
is_pre_release start = false
is_pre_release health = false
is_pre_release unknown = false

abbrev pub is_post_release : TaskPhase → Bool
is_post_release install = false
is_post_release build = false
is_post_release cleanup = false
is_post_release pre_start = true
is_post_release run = true
is_post_release start = true
is_post_release health = true
is_post_release unknown = false

unfoldable pub needs : (TaskPhase → Bool) → List Task → Bool
unfolding task_phase phase_of
needs is_in [] = false
needs is_in (t ∷ ts) = is_in (task_phase (phase_of t)) || needs is_in ts

-- The last app of a name, as in the map `byName`.
abbrev or_this : Option App → Bytes → App → Option App
or_this (some b) name a = some b
or_this none name a = if a.name == name then some a else none

unfoldable pub by_name : Bytes → List App → Option App
by_name name [] = none
by_name name (a ∷ apps) = or_this (by_name name apps) name a

-- What a wave does: its scripts, and the apps to run, to start and to probe.
pub record Wave : Type 0 where
  pub jobs : List Job
  pub runs : List App
  pub starts : List App
  pub probes : List App

pub data Planned : Type 0 where
  refused : Failure → Planned
  planned : Wave → Planned

abbrev add_job : Bytes → Job → Wave → Wave
add_job body j w = record w { jobs = w.jobs ++ with_job body j [] }

abbrev installing : Bytes → Failure
installing e = in_phase (codes "install") e

abbrev pub no_wave : Wave
no_wave = record { jobs = []; runs = []; starts = []; probes = [] }

-- By the label, as the code has it.
unfoldable pub all_pre_start : List Job → Bool
all_pre_start [] = true
all_pre_start (j ∷ js) = j.label == codes "pre-start" && all_pre_start js

module _ (host : Host) (cmd : Project) where
  abbrev script_of : App → Bytes × Bytes
  script_of a = split_install_build (or_default a.install_script cmd.install_script)

  unfoldable pub add_task : Bytes → Task → TaskPhase → App → Wave → Planned
  add_task root t install a w =
      let body = (script_of a).0 in planned (add_job body (job host cmd root a body body) w)
  add_task root t build a w =
      let body = (script_of a).1 in planned (add_job body (job host cmd root a body body) w)
  add_task root t cleanup a w =
      let body = cleanup_script_for a.cleanup_script a.language in
      planned (add_job body (cleanup_job host cmd root a body) w)
  add_task root t pre_start a w =
      let body = trim a.pre_start_script in
      planned (add_job body (pre_start_job host cmd root a body) w)
  add_task root t run a w = planned (record w { runs = w.runs ++ a ∷ [] })
  add_task root t start a w = planned (record w { starts = w.starts ++ a ∷ [] })
  add_task root t health a w = planned (record w { probes = w.probes ++ a ∷ [] })
  add_task root t unknown a w = refused (installing (codes "unknown flow phase " ++ t.phase))

  unfoldable pub add_named : Bytes → Task → Option App → Wave → Planned
  unfolding add_task
  add_named root t none w = refused (installing (codes "flow references unknown app " ++ t.app))
  add_named root t (some a) w = add_task root t (task_phase (phase_of t)) a w

  abbrev on_planned : {A : Type 0} → Planned → (Failure → A) → (Wave → A) → A
  on_planned (refused f) bad good = bad f
  on_planned (planned w) bad good = good w

  unfoldable pub plan_tasks : Bytes → List App → List Task → Wave → Planned
  unfolding add_named by_name
  plan_tasks root apps [] w = planned w
  plan_tasks root apps (t ∷ ts) w =
      on_planned (add_named root t (by_name t.app apps) w) refused (plan_tasks root apps ts)

  abbrev script_phase : List Job → Bytes
  script_phase jobs = if all_pre_start jobs then codes "pre_start" else codes "install"

  -- What needs the release is refused before there is one.
  abbrev if_released : Bool → List App → Failure → Run Failure → Run Failure
  if_released released [] f r = nothing
  if_released true (a ∷ apps) f r = r
  if_released false (a ∷ apps) f r = fail_with (some f)

  unfoldable pub run_planned : Bytes → Bool → Wave → Run Failure
  unfolding all_pre_start
  run_planned current released w =
      and_then (in_phase (script_phase w.jobs)) (run_app_scripts host w.jobs) (
        and_then (λ f. f)
          (if_released released w.runs
            (in_phase (codes "run") (codes "run tasks require an activated release"))
            (and_then (in_phase (codes "run")) (run_apps host cmd current w.runs) nothing))
          (and_then (λ f. f)
            (if_released released w.starts
              (in_phase (codes "start") (codes "start tasks require an activated release"))
              (and_then (in_phase (codes "start")) (start_apps host cmd current w.starts) nothing))
            (and_then (in_phase (codes "health")) (check_health host cmd w.probes) nothing)))

  unfoldable pub run_flow_wave : Bytes → Bytes → Bool → List App → List Task → Run Failure
  unfolding plan_tasks run_planned
  run_flow_wave root current released apps tasks =
      on_planned (plan_tasks root apps tasks no_wave) (λ f. fail_with (some f))
        (run_planned current released)

  -- `Swap` of the release, with its error as that of the release phase.
  unfoldable pub swap_to : Bytes → Run Failure → Run Failure
  swap_to dir =
      and_then (λ e. in_phase (codes "release") (codes "activate release: " ++ e))
        (perform host (swap dir))

  abbrev mixed : Failure
  mixed = installing (codes "flow wave mixes install/build/cleanup with start")

  module _ (release current : Bytes) where
    -- The swap at the end, if no wave needed it.
    unfoldable pub end_flow : Bool → List Bytes → Run Failure
    unfolding swap_to
    end_flow true errs = finish host cmd current errs
    end_flow false errs = swap_to release (finish host cmd current errs)

    abbrev after_wave : List Bytes → Run Failure → (List Bytes → Run Failure) → Run Failure
    after_wave errs wave next =
        settle wave (λ f. if continues cmd then next (errs ++ f.text ∷ []) else fail_with (some f))
          (next errs)

    -- The waves, with the apps as they are known, the errors so far, and whether the release is live.
    unfoldable pub flow_waves : Bool → List App → List (List Task) → List Bytes → Run Failure
    unfolding end_flow run_flow_wave
    flow_waves released apps [] errs = end_flow released errs
    flow_waves released apps ([] ∷ waves) errs = flow_waves released apps waves errs
    flow_waves true apps ((t ∷ ts) ∷ waves) errs =
        after_wave errs (run_flow_wave current current true apps (t ∷ ts))
          (flow_waves true apps waves)
    flow_waves false apps ((t ∷ ts) ∷ waves) errs =
        let unreleased =
          after_wave errs (run_flow_wave release current false apps (t ∷ ts))
            (flow_waves false apps waves) in
        let swapped : Run Failure = λ h.
          let apps' = apps_of (host.exists h) cmd current in
          after_wave errs (run_flow_wave current current true apps' (t ∷ ts))
            (flow_waves true apps' waves) h in
        if needs is_post_release (t ∷ ts)
        then (if needs is_pre_release (t ∷ ts)
            then fail_with (some mixed)
            else swap_to release swapped)
        else unreleased

    unfoldable pub run_deploy_flow : Run Failure
    unfolding flow_waves
    run_deploy_flow h = flow_waves false (apps_of (host.exists h) cmd release) cmd.flow [] h
