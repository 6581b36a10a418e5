-- ===== src/Deploy/Stages.antt =====
-- The stages of a deploy, agent/internal/deploy/runner.go: `installApps`, `cleanupApps`, `preStartApps`,
-- `startApps`, `checkHealth`, `persistProcessManagers` and `activateAppWaves`, `runApps` of runapp.go,
-- and `resolveHealth` of health.go. Their lines of log are left out.
pub mod Sound
pub mod Quiet
use cron_compose.Prelude.{
  Bool, true, false, ◌||◌, List, [], ◌∷◌, ◌++◌, Option, none, some, Bytes, bytes_eq, ◌==◌,
  if◌then◌else◌, zero, suc,
}
use cron_compose.Prelude.Int.{ℤ, pos, negsuc, is_positive}
use cron_compose.Prelude.Text.{codes}
use cron_compose.Prelude.Strings.{trim}
use cron_compose.Prelude.Paths.{base}
use cron_compose.Deploy.Plan.{HealthCheck, App, Project}
use cron_compose.Deploy.Places.{or_default, or_port, app_work_dir, apps_of, app_env}
use cron_compose.Deploy.Scripts.{lower, cleanup_script_for}
use cron_compose.Deploy.Waves.{group_apps_by_start}
use cron_compose.Deploy.Acts.{
  building, cleaning, pre_starting, Job, Process, Probe, script, start_process, probe, persist, Run,
  Host, perform, nothing, fail_with, settle, and_then, each_joined, join_errors, was_launched,
  Failure, in_phase,
}

-- The probe of a check, for the port of the app.
abbrev probe_at : HealthCheck → ℤ → Option Probe
probe_at hc port =
    if is_positive port
    then some (record {
      path = hc.path;
      port = port;
      seconds = if is_positive hc.timeout_seconds then hc.timeout_seconds else pos 60;
    })
    else none

unfoldable pub resolve_health : Option HealthCheck → ℤ → Option Probe
resolve_health none app_port = none
resolve_health (some hc) app_port =
    if hc.path == [] then none else probe_at hc (or_port hc.port app_port)

-- The app's own check, if it has a path.
abbrev check_of : Option HealthCheck → Option HealthCheck → Option HealthCheck
check_of none own = own
check_of (some hc) project = if hc.path == [] then project else some hc

-- `strings.EqualFold` with a word of ASCII letters without k and s, which no other letters fold to.
unfoldable pub continues : Project → Bool
continues p = lower (trim p.on_wave_failure) == codes "continue"

abbrev pub with_job : Bytes → Job → List Job → List Job
with_job [] j js = js
with_job (c ∷ s) j js = j ∷ js

abbrev pub labelled : Bytes → Option Bytes → Option Bytes
labelled label none = none
labelled label (some e) = some (label ++ (codes ": " ++ e))

module _ (host : Host) where
  abbrev pub run_job : Job → Run Bytes
  run_job j h = let r = perform host (script j) h in (labelled j.label r.0, r.1)

  -- Every script runs, whatever becomes of the others.
  unfoldable pub run_app_scripts : List Job → Run Bytes
  run_app_scripts jobs = each_joined run_job jobs

  module _ (cmd : Project) where
    abbrev pub job : Bytes → App → Bytes → Bytes → Job
    job root a label body = record {
      part = building;
      label = label;
      work = app_work_dir root cmd a;
      script = body;
      env = app_env cmd a;
    }

    abbrev pub cleanup_job : Bytes → App → Bytes → Job
    cleanup_job root a body = record (job root a (codes "cleanup") body) { part = cleaning }

    abbrev pub pre_start_job : Bytes → App → Bytes → Job
    pre_start_job root a body = record (job root a (codes "pre-start") body) { part = pre_starting }

    unfoldable pub install_jobs : Bytes → List App → List Job
    install_jobs root [] = []
    install_jobs root (a ∷ apps) =
        let body = or_default a.install_script cmd.install_script in
        with_job body (job root a body body) (install_jobs root apps)

    unfoldable pub cleanup_jobs : Bytes → List App → List Job
    cleanup_jobs root [] = []
    cleanup_jobs root (a ∷ apps) =
        let body = cleanup_script_for a.cleanup_script a.language in
        with_job body (cleanup_job root a body) (cleanup_jobs root apps)

    unfoldable pub pre_start_jobs : Bytes → List App → List Job
    pre_start_jobs root [] = []
    pre_start_jobs root (a ∷ apps) =
        let body = trim a.pre_start_script in
        with_job body (pre_start_job root a body) (pre_start_jobs root apps)

    unfoldable pub install_apps : Bytes → Run Bytes
    unfolding install_jobs
    install_apps release h =
        run_app_scripts (install_jobs release (apps_of (host.exists h) cmd release)) h

    unfoldable pub cleanup_apps : Bytes → Run Bytes
    unfolding cleanup_jobs
    cleanup_apps release h =
        run_app_scripts (cleanup_jobs release (apps_of (host.exists h) cmd release)) h

    unfoldable pub pre_start_apps : Bytes → List App → Run Bytes
    unfolding pre_start_jobs
    pre_start_apps current apps = run_app_scripts (pre_start_jobs current apps)

    abbrev pub process_of : Bool → Bytes → App → Process
    process_of is_run current a =
        let work = app_work_dir current cmd a in
        record {
          is_run = is_run;
          app = a;
          app_name = or_default a.name (base work);
          work = work;
          process_manager = or_default a.process_manager cmd.process_manager;
          port = or_port a.port cmd.port;
          env = app_env cmd a;
        }

    -- An app that the Run phase of this deploy has started is not started again.
    abbrev start_app : Bytes → App → Run Bytes
    start_app current a h =
        let p = process_of false current a in
        (if was_launched p.app_name h then nothing else perform host (start_process p)) h

    unfoldable pub start_apps : Bytes → List App → Run Bytes
    start_apps current apps = each_joined (start_app current) apps

    abbrev run_app : Bytes → App → Run Bytes
    run_app current a h =
        let p = process_of true current a in
        let r = perform host (start_process p) h in (labelled p.app_name r.0, r.1)

    unfoldable pub run_apps : Bytes → List App → Run Bytes
    run_apps current apps = each_joined (run_app current) apps

    abbrev probe_if : Option Probe → Run Bytes
    probe_if none = nothing
    probe_if (some p) = perform host (probe p)

    abbrev check_app : App → Run Bytes
    check_app a = probe_if (resolve_health (check_of a.health cmd.health) (or_port a.port cmd.port))

    unfoldable pub check_health : List App → Run Bytes
    check_health apps = each_joined check_app apps

    unfoldable pub is_seen : Bytes → List Bytes → Bool
    is_seen pm [] = false
    is_seen pm (s ∷ seen) = s == pm || is_seen pm seen

    -- Once for each process manager, up to the first failure.
    unfoldable pub persist_each : Bytes → List App → List Bytes → Run Bytes
    unfolding is_seen
    persist_each current [] seen = nothing
    persist_each current (a ∷ apps) seen =
        let pm = or_default a.process_manager cmd.process_manager in
        let skip = persist_each current apps seen in
        let next = persist_each current apps (pm ∷ seen) in
        if pm == [] || pm == codes "none" || is_seen pm seen
        then skip
        else and_then (λ e. e) (perform host (persist (app_work_dir current cmd a) pm)) next

    unfoldable pub persist_process_managers : Bytes → Run Bytes
    unfolding persist_each
    persist_process_managers current h =
        persist_each current (apps_of (host.exists h) cmd current) [] h

    -- Pre-start, start and health of the apps of one group.
    unfoldable pub run_wave : Bytes → List App → Run Failure
    run_wave current apps = and_then (in_phase (codes "pre_start")) (pre_start_apps current apps) (
        and_then (in_phase (codes "start")) (start_apps current apps)
          (and_then (in_phase (codes "health")) (check_health apps) nothing))

    abbrev starting : Bytes → Failure
    starting e = in_phase (codes "start") e

    abbrev report : List Bytes → Run Failure
    report errs h = fail_with (failed (join_errors errs)) h
      where
        failed : Option Bytes → Option Failure
        failed none = none
        failed (some e) = some (starting e)

    -- What is done behind the waves: the boot persistence, and then the errors of the waves.
    unfoldable pub finish : Bytes → List Bytes → Run Failure
    finish current errs = and_then starting (persist_process_managers current) (report errs)

    abbrev as_wave_error : Failure → Bytes
    as_wave_error f = f.phase ++ (codes ": " ++ f.text)

    unfoldable pub activate_waves : Bytes → List (List App) → List Bytes → Run Failure
    unfolding finish
    activate_waves current [] errs = finish current errs
    activate_waves current (w ∷ ws) errs =
        settle (run_wave current w)
          (λ f.
            let later = activate_waves current ws (errs ++ as_wave_error f ∷ []) in
            if continues cmd then later else fail_with (some f))
          (activate_waves current ws errs)

    unfoldable pub activate_app_waves : Bytes → Run Failure
    unfolding activate_waves
    activate_app_waves current h =
        activate_waves current (group_apps_by_start (apps_of (host.exists h) cmd current)) [] h
