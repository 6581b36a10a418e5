-- ===== src/Deploy/Pipeline/Tests.antt =====
-- Runs of the model of `deploy`, and its theorems at concrete inputs.
use cron_compose.Prelude.{
  ◌≡◌, inr, refl, true, false, List, [], ◌∷◌, Option, none, some, Bytes, bytes_eq,
}
use cron_compose.Prelude.Int.{pos}
use cron_compose.Prelude.Text.{codes}
use cron_compose.Prelude.Strings.{trim, trim_right_by, trim_left_by, is_space, split}
use cron_compose.Prelude.Paths.{is_rooted, clean}
use cron_compose.Prelude.Map.{has, get, put}
use cron_compose.Deploy.Redact.{contains, starts_with}
use cron_compose.Deploy.Places.{apps_of}
use cron_compose.Deploy.Scripts.{lower, split_install_build, cleanup_script_for}
use cron_compose.Deploy.Waves.{group_apps_by_start, sort_numbers}
use cron_compose.Deploy.Flow.{swap_to, run_deploy_flow, needs, by_name}
use cron_compose.Deploy.Plan.{App, Task, Project}
use cron_compose.Deploy.Acts.{
  Act, script, Host, and_then, perform, each_joined, was_launched, settle,
}
use cron_compose.Deploy.Acts.Histories.{is_live, is_spotless, is_guarded, is_careful}
use cron_compose.Deploy.Stages.{
  continues, finish, run_app_scripts, install_apps, cleanup_apps, pre_start_apps, start_apps,
  check_health, run_wave, persist_process_managers, resolve_health, activate_app_waves,
}
use cron_compose.Deploy.Pipeline.{deploy}
use cron_compose.Deploy.Pipeline.Lawful.{deploy_succeeded, deploy_guarded, deploy_careful}

-- A host on which scripts can fail.
abbrev result : Option Bytes → Act → Option Bytes
result o (script j) = o
result o a = none

abbrev host_with : Option Bytes → Host
host_with o = record {
  outcome = λ h a. result o a;
  exists = λ h p. false;
  needs_migration = λ h. false;
  find_release = λ h sha. none;
  release = λ h. codes "/s/releases/1";
}

abbrev web : App
web = record {
  name = codes "web";
  root_directory = [];
  install_script = codes "make";
  cleanup_script = [];
  pre_start_script = codes "migrate";
  run_script = [];
  language = codes "docker";
  process_manager = codes "pm2";
  port = pos 0;
  env = [];
  health = none;
  start_group = pos 0;
}

abbrev project : List (List Task) → Project
project flow = record {
  apps = web ∷ [];
  flow = flow;
  on_wave_failure = codes "Continue";
  root_directory = [];
  install_script = [];
  process_manager = [];
  port = pos 0;
  env = [];
  health = none;
  rollback_sha = [];
}

abbrev install_only : List (List Task)
install_only = (record { app = codes "web"; phase = codes "install" } ∷ []) ∷ []

abbrev dest : Bytes
dest = codes "/s"

succeeds : (deploy (host_with none) (project []) dest []).0 ≡ none
unfolding deploy is_rooted clean and_then perform install_apps run_app_scripts each_joined apps_of
    cleanup_apps cleanup_script_for trim trim_right_by trim_left_by is_space swap_to
    activate_app_waves group_apps_by_start sort_numbers has get put pre_start_apps start_apps
    was_launched check_health run_wave persist_process_managers resolve_health settle
succeeds = refl

deploy_succeeded_example :
    (is_live (deploy (host_with none) (project []) dest []).1 ≡ true)
    × (is_spotless (deploy (host_with none) (project []) dest []).1 ≡ true)
deploy_succeeded_example = deploy_succeeded (host_with none) (project []) dest succeeds

deploy_guarded_example :
    is_guarded (deploy (host_with none) (project install_only) dest []).1 ≡ true
deploy_guarded_example = deploy_guarded (host_with none) (project install_only) dest

deploy_careful_example :
    is_careful (deploy (host_with (some (codes "exit 1"))) (project []) dest []).1 ≡ true
deploy_careful_example =
    deploy_careful (host_with (some (codes "exit 1"))) (project []) dest (inr refl)

-- Without a flow the failed install ends the run.
install_failed : is_live (deploy (host_with (some (codes "exit 1"))) (project []) dest []).1 ≡ false
unfolding deploy is_live is_rooted clean and_then perform install_apps run_app_scripts each_joined
    apps_of
install_failed = refl

-- With one that goes on, its release becomes live.
failed_install_live :
    is_live (deploy (host_with (some (codes "exit 1"))) (project install_only) dest []).1 ≡ true
unfolding deploy is_live is_rooted clean and_then perform run_app_scripts each_joined apps_of
    run_deploy_flow needs lower trim trim_right_by trim_left_by is_space split_install_build
    contains starts_with by_name continues persist_process_managers split finish
failed_install_live = refl
