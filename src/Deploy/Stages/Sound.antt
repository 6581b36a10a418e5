-- ===== src/Deploy/Stages/Sound.antt =====
-- The stages of a deploy report every failure of an act, and no release becomes live in them.
use cron_compose.Prelude.{
  ◌≡◌, ◌≢◌, refl, true, false, List, [], ◌∷◌, ◌++◌, Option, none, some, Bytes, bytes_eq,
  if◌then◌else◌, All,
}
use cron_compose.Deploy.Plan.{App, Project}
use cron_compose.Deploy.Places.{apps_of}
use cron_compose.Deploy.Waves.{group_apps_by_start}
use cron_compose.Deploy.Acts.{
  Job, Probe, script, start_process, probe, Run, Host, perform, nothing, join_errors, was_launched,
}
use cron_compose.Deploy.Acts.Histories.{starts_part}
use cron_compose.Deploy.Acts.Sound.{
  Sound, IsQuiet, Fails, if-Fails, settle-Fails, and_then-Fails, nothing-Sound, fail_with-Sound,
  perform-Sound, perform-IsQuiet, settle-Sound, and_then-Sound, reading-Sound, if-Sound,
  relabelled-Sound, each_joined-Sound, each_joined-IsQuiet,
}
use cron_compose.Deploy.Stages.{
  labelled, run_job, run_app_scripts, install_apps, cleanup_apps, pre_start_apps, process_of,
  start_app, start_apps, run_app, run_apps, probe_if, check_app, check_health, persist_each,
  persist_process_managers, run_wave, continues, report, finish, activate_waves, activate_app_waves,
}

labelled-none : (label : Bytes) (o : Option Bytes) → labelled label o ≡ none → o ≡ none
labelled-none label none e = refl
labelled-none label (some x) e = cc

module _ (host : Host) where
  run_job-Sound : (j : Job) → Sound (run_job host j)
  run_job-Sound j =
      relabelled-Sound (perform host (script j)) (run_job host j)
        (λ h. (labelled-none j.label (perform host (script j) h).0, refl))
        (perform-Sound host (script j) refl)

  pub run_app_scripts-Sound : (jobs : List Job) → Sound (run_app_scripts host jobs)
  unfolding run_app_scripts
  run_app_scripts-Sound jobs = each_joined-Sound (run_job host) run_job-Sound jobs

  -- Scripts that are no pre-start scripts.
  pub run_app_scripts-IsQuiet :
      (jobs : List Job)
      → All (λ j. starts_part j.part ≡ false) jobs
      → IsQuiet (run_app_scripts host jobs)
  unfolding run_app_scripts
  run_app_scripts-IsQuiet jobs all =
      each_joined-IsQuiet (run_job host) (λ j n h g. perform-IsQuiet host (script j) n h g) jobs all

  module _ (cmd : Project) (current : Bytes) where
    pub install_apps-Sound : Sound (install_apps host cmd current)
    unfolding install_apps
    install_apps-Sound = reading-Sound _ (λ h. run_app_scripts-Sound _)

    pub cleanup_apps-Sound : Sound (cleanup_apps host cmd current)
    unfolding cleanup_apps
    cleanup_apps-Sound = reading-Sound _ (λ h. run_app_scripts-Sound _)

    pub pre_start_apps-Sound : (apps : List App) → Sound (pre_start_apps host cmd current apps)
    unfolding pre_start_apps
    pre_start_apps-Sound apps = run_app_scripts-Sound _

    start_app-Sound : (a : App) → Sound (start_app host cmd current a)
    start_app-Sound a =
        let p = process_of host cmd false current a in
        let start : Run Bytes = perform host (start_process p) in
        reading-Sound (λ h. if was_launched p.app_name h then nothing else start)
          (λ h.
            if-Sound (was_launched p.app_name h) nothing start nothing-Sound
              (perform-Sound host (start_process p) refl))

    pub start_apps-Sound : (apps : List App) → Sound (start_apps host cmd current apps)
    unfolding start_apps
    start_apps-Sound apps = each_joined-Sound (start_app host cmd current) start_app-Sound apps

    run_app-Sound : (a : App) → Sound (run_app host cmd current a)
    run_app-Sound a =
        let p = process_of host cmd true current a in
        relabelled-Sound (perform host (start_process p)) (run_app host cmd current a)
          (λ h. (labelled-none p.app_name (perform host (start_process p) h).0, refl))
          (perform-Sound host (start_process p) refl)

    pub run_apps-Sound : (apps : List App) → Sound (run_apps host cmd current apps)
    unfolding run_apps
    run_apps-Sound apps = each_joined-Sound (run_app host cmd current) run_app-Sound apps

    probe_if-Sound : (p : Option Probe) → Sound (probe_if host cmd p)
    probe_if-Sound none = nothing-Sound
    probe_if-Sound (some p) = perform-Sound host (probe p) refl

    pub check_health-Sound : (apps : List App) → Sound (check_health host cmd apps)
    unfolding check_health
    check_health-Sound apps = each_joined-Sound (check_app host cmd) (λ a. probe_if-Sound _) apps

    persist_each-Sound :
        (apps : List App) (seen : List Bytes) → Sound (persist_each host cmd current apps seen)
    unfolding persist_each
    persist_each-Sound [] seen = nothing-Sound
    persist_each-Sound (a ∷ apps) seen =
        if-Sound _ _ _ (persist_each-Sound apps seen)
          (and_then-Sound _ _ _ (perform-Sound host _ refl) (persist_each-Sound apps _))

    persist_process_managers-Sound : Sound (persist_process_managers host cmd current)
    unfolding persist_process_managers
    persist_process_managers-Sound =
        reading-Sound _ (λ h. persist_each-Sound (apps_of (host.exists h) cmd current) [])

    run_wave-Sound : (apps : List App) → Sound (run_wave host cmd current apps)
    unfolding run_wave
    run_wave-Sound apps = and_then-Sound _ _ _ (pre_start_apps-Sound apps) (
        and_then-Sound _ _ _ (start_apps-Sound apps)
          (and_then-Sound _ _ _ (check_health-Sound apps) nothing-Sound))

    report-Sound : (errs : List Bytes) → Sound (report host cmd errs)
    report-Sound errs = fail_with-Sound _

    pub finish-Sound : (errs : List Bytes) → Sound (finish host cmd current errs)
    unfolding finish
    finish-Sound errs = and_then-Sound _ _ _ persist_process_managers-Sound (report-Sound errs)

    pub join_errors-append : (errs : List Bytes) (e : Bytes) → join_errors (errs ++ e ∷ []) ≢ none
    join_errors-append [] e n = cc
    join_errors-append (x ∷ errs) e n = cc

    report-Fails : (errs : List Bytes) → join_errors errs ≢ none → Fails (report host cmd errs)
    report-Fails [] n h e = n refl
    report-Fails (x ∷ errs) n h e = cc

    pub finish-Fails :
        (errs : List Bytes) → join_errors errs ≢ none → Fails (finish host cmd current errs)
    unfolding finish
    finish-Fails errs n = and_then-Fails _ _ _ (report-Fails errs n)

    -- Behind a failed wave the activation does not succeed.
    activate_waves-Fails :
        (ws : List (List App)) (errs : List Bytes)
        → join_errors errs ≢ none
        → Fails (activate_waves host cmd current ws errs)
    unfolding activate_waves
    activate_waves-Fails [] errs n = finish-Fails errs n
    activate_waves-Fails (w ∷ ws) errs n =
        settle-Fails _ _ (run_wave host cmd current w)
          (λ f.
            if-Fails (continues cmd) _ _ (activate_waves-Fails ws _ (join_errors-append errs _))
              (λ h e. cc))
          (activate_waves-Fails ws errs n)

    activate_waves-Sound :
        (ws : List (List App)) (errs : List Bytes) → Sound (activate_waves host cmd current ws errs)
    unfolding activate_waves
    activate_waves-Sound [] errs = finish-Sound errs
    activate_waves-Sound (w ∷ ws) errs =
        settle-Sound _ _ (run_wave host cmd current w) (run_wave-Sound w)
          (record {
            sound = λ f.
                if-Sound (continues cmd) _ _ (activate_waves-Sound ws _) (fail_with-Sound (some f));
            fails = λ f.
                if-Fails (continues cmd) _ _ (activate_waves-Fails ws _ (join_errors-append errs _))
                  (λ h e. cc);
          })
          (activate_waves-Sound ws errs)

    pub activate_app_waves-Sound : Sound (activate_app_waves host cmd current)
    unfolding activate_app_waves
    activate_app_waves-Sound =
        reading-Sound
          (λ h.
            activate_waves host cmd current
              (group_apps_by_start (apps_of (host.exists h) cmd current)) [])
          (λ h. activate_waves-Sound (group_apps_by_start (apps_of (host.exists h) cmd current)) [])
