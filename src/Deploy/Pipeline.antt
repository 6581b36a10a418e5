-- ===== src/Deploy/Pipeline.antt =====
-- `deploy` of agent/internal/deploy/runner.go: the phases of one run. What it does outside of its
-- stages is one act each: the preflight, the migration, the clone, the release directory with its
-- commit file and the `.env` files. Files that are written for information only, ownership, sizes and
-- lines of log are left out.
pub mod Lawful
mod Tests
use cron_compose.Prelude.{
  Bool, true, false, ◌||◌, List, [], ◌∷◌, ◌++◌, Option, none, some, Bytes, bytes_eq, ◌==◌,
  if◌then◌else◌, not,
}
use cron_compose.Prelude.Text.{codes}
use cron_compose.Prelude.Paths.{clean, is_rooted, join}
use cron_compose.Deploy.Plan.{Task, Project}
use cron_compose.Deploy.Acts.{
  Act, resolve_user, preflight, migrate, clone, materialize, write_envs, prune, swap, Did, Run,
  Host, perform, nothing, fail_with, settle, and_then, Failure, in_phase,
}
use cron_compose.Deploy.Stages.{install_apps, cleanup_apps, activate_app_waves}
use cron_compose.Deploy.Flow.{swap_to, run_deploy_flow}

module _ (host : Host) (cmd : Project) where
  abbrev current_of : Bytes → Bytes
  current_of base = join base (codes "current")

  abbrev step : Bytes → Act → Run Failure → Run Failure
  step phase a = and_then (in_phase phase) (perform host a)

  -- The release becomes live only behind its installation.
  unfoldable pub install_and_activate : Bytes → Bytes → Run Failure
  install_and_activate base release =
      and_then (in_phase (codes "install")) (install_apps host cmd release) (
        and_then (in_phase (codes "install")) (cleanup_apps host cmd release)
          (swap_to host cmd release (activate_app_waves host cmd (current_of base))))

  abbrev by_flow : List (List Task) → Bytes → Bytes → Run Failure
  by_flow [] base release = install_and_activate base release
  by_flow (w ∷ ws) base release = run_deploy_flow host cmd release (current_of base)

  -- The error of a removal does not end the run.
  abbrev prune_old : Run Failure
  prune_old = settle (perform host prune) (λ e. nothing) nothing

  unfoldable pub deploy_release : Bytes → Run Failure
  unfolding install_and_activate
  deploy_release base = step (codes "clone") clone (
      step (codes "clone") materialize (
        and_then (λ e. in_phase (codes "clone") (codes "write release .env: " ++ e))
          (perform host write_envs)
          (λ h. and_then (λ f. f) (by_flow cmd.flow base (host.release h)) prune_old h)))

  abbrev roll_back : Bytes → Option Bytes → Run Failure
  roll_back base none = deploy_release base
  roll_back base (some dir) = swap_to host cmd dir (activate_app_waves host cmd (current_of base))

  -- A pinned commit that is on disk needs no clone.
  unfoldable pub deploy_pinned : Bytes → Run Failure
  unfolding deploy_release
  deploy_pinned base h =
      (if cmd.rollback_sha == []
          then deploy_release base
          else roll_back base (host.find_release h cmd.rollback_sha))
        h

  unfoldable pub migrate_first : Run Failure → Run Failure
  migrate_first next h =
      (if host.needs_migration h
          then and_then (λ e. in_phase (codes "release") (codes "migrate to release layout: " ++ e))
              (perform host migrate) next
          else next)
        h

  unfoldable pub deploy : Bytes → Run Failure
  unfolding deploy_pinned migrate_first
  deploy dest_path =
      let base = clean dest_path in
      if not (is_rooted base)
      then fail_with (some (in_phase [] (codes "dest_path must be an absolute path")))
      else step (codes "preflight") resolve_user
          (step (codes "preflight") preflight (migrate_first (deploy_pinned base)))
