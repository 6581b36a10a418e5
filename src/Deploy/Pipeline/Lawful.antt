-- ===== src/Deploy/Pipeline/Lawful.antt =====
-- What holds of every run of `deploy`.
use cron_compose.Prelude.{
  ◌≡◌, ◌⊎◌, inl, inr, refl, true, false, not, List, [], ◌∷◌, ◌++◌, Option, none, some, Bytes,
  bytes_eq, ◌==◌, arith, if◌then◌else◌,
}
use cron_compose.Prelude.Text.{codes}
use cron_compose.Prelude.Paths.{clean, is_rooted}
use cron_compose.Deploy.Plan.{Task, Project}
use cron_compose.Deploy.Acts.{
  Act, resolve_user, preflight, migrate, clone, materialize, write_envs, prune, Did, Run, Host,
  perform, nothing, settle, settled, and_then, Failure, in_phase,
}
use cron_compose.Deploy.Acts.Histories.{
  is_swap, needs_release, is_spotless, is_live, is_guarded, is_careful,
}
use cron_compose.Deploy.Acts.Sound.{Sound, perform-Sound, perform-IsQuiet}
use cron_compose.Deploy.Acts.Lawful.{
  Lawful, Careful, and_then-Lawful, and_then-Careful, reading-Lawful, if-Lawful, if-Careful,
  fail_with-Lawful, behind-Lawful, behind-Careful,
}
use cron_compose.Deploy.Stages.{continues, activate_app_waves}
use cron_compose.Deploy.Stages.Sound.{
  install_apps-Sound, cleanup_apps-Sound, activate_app_waves-Sound,
}
use cron_compose.Deploy.Flow.Swap.{swap_to-Lawful, swap_to-Careful}
use cron_compose.Deploy.Flow.Lawful.{run_deploy_flow-Lawful, run_deploy_flow-Careful}
use cron_compose.Deploy.Pipeline.{
  current_of, step, install_and_activate, by_flow, prune_old, deploy_release, roll_back,
  deploy_pinned, migrate_first, deploy,
}
use cron_compose.Deploy.Stages.Quiet.{install_apps-IsQuiet, cleanup_apps-IsQuiet}

module _ (host : Host) (cmd : Project) where
  pruned :
      (o : Option Bytes) (h : List Did)
      → settled (λ e. nothing) (nothing {E = Failure}) (o, h) ≡ (none, h)
  pruned none h = refl
  pruned (some e) h = refl

  prune_old_lem :
      (h : List Did)
      → prune_old host cmd h ≡ (none, record { act = prune; outcome = host.outcome h prune } ∷ h)
  unfolding settle perform
  prune_old_lem h = pruned (host.outcome h prune) _

  prune_old-Sound : Sound (prune_old host cmd)
  unfolding is_spotless is_live is_guarded is_careful
  prune_old-Sound = record {
    tells = λ h u e. rw (prune_old_lem h) (ground (arith, u));
    stays = λ h l. rw (prune_old_lem h) (ground (arith, l));
    guards = λ h l g. rw (prune_old_lem h) g;
    keeps = λ h c. rw (prune_old_lem h) c;
  }

  module _ (base : Bytes) where
    activate-Sound : Sound (activate_app_waves host cmd (current_of host cmd base))
    activate-Sound = activate_app_waves-Sound host cmd (current_of host cmd base)

    install_and_activate-Lawful :
        (release : Bytes) → Lawful (install_and_activate host cmd base release)
    unfolding install_and_activate
    install_and_activate-Lawful release =
        and_then-Lawful _ _ _ (install_apps-Sound host cmd release)
          (install_apps-IsQuiet host cmd release)
          (and_then-Lawful _ _ _ (cleanup_apps-Sound host cmd release)
            (cleanup_apps-IsQuiet host cmd release)
            (swap_to-Lawful host cmd release _ activate-Sound))

    install_and_activate-Careful :
        (release : Bytes) → Careful (install_and_activate host cmd base release)
    unfolding install_and_activate
    install_and_activate-Careful release =
        and_then-Careful _ _ _ (install_apps-Sound host cmd release) (
          and_then-Careful _ _ _ (cleanup_apps-Sound host cmd release)
            (swap_to-Careful host cmd release _ activate-Sound))

    by_flow-Lawful :
        (ws : List (List Task)) (release : Bytes) → Lawful (by_flow host cmd ws base release)
    by_flow-Lawful [] release = install_and_activate-Lawful release
    by_flow-Lawful (w ∷ ws) release =
        run_deploy_flow-Lawful host cmd release (current_of host cmd base)

    by_flow-Careful :
        (ws : List (List Task)) (release : Bytes)
        → (continues cmd ≡ false) ⊎ (ws ≡ [])
        → Careful (by_flow host cmd ws base release)
    by_flow-Careful [] release c = install_and_activate-Careful release
    by_flow-Careful (w ∷ ws) release (inl stop) =
        run_deploy_flow-Careful host cmd release (current_of host cmd base) stop
    by_flow-Careful (w ∷ ws) release (inr e) = cc

    step-Lawful :
        (phase : Bytes) (a : Act) (next : Run Failure)
        → is_swap a ≡ false
        → needs_release a ≡ false
        → Lawful next
        → Lawful (step host cmd phase a next)
    step-Lawful phase a next s n l =
        and_then-Lawful _ _ _ (perform-Sound host a s) (perform-IsQuiet host a n) l

    step-Careful :
        (phase : Bytes) (a : Act) (next : Run Failure)
        → is_swap a ≡ false
        → Careful next
        → Careful (step host cmd phase a next)
    step-Careful phase a next s c = and_then-Careful _ _ _ (perform-Sound host a s) c

    abbrev then_pruned : Bytes → Run Failure
    then_pruned release =
        and_then (λ f. f) (by_flow host cmd cmd.flow base release) (prune_old host cmd)

    deploy_release-Lawful : Lawful (deploy_release host cmd base)
    unfolding deploy_release
    deploy_release-Lawful = step-Lawful _ clone _ refl refl (
        step-Lawful _ materialize _ refl refl (
          and_then-Lawful _ _ _ (perform-Sound host write_envs refl)
            (perform-IsQuiet host write_envs refl)
            (reading-Lawful (λ h. then_pruned (host.release h))
              (λ h.
                behind-Lawful (λ f. f) _ prune_old-Sound _
                  (by_flow-Lawful cmd.flow (host.release h))))))

    deploy_release-Careful :
        (continues cmd ≡ false) ⊎ (cmd.flow ≡ []) → Careful (deploy_release host cmd base)
    unfolding deploy_release
    deploy_release-Careful c = step-Careful _ clone _ refl (
        step-Careful _ materialize _ refl (
          and_then-Careful _ _ _ (perform-Sound host write_envs refl) (λ h.
            behind-Careful _ _ prune_old-Sound _ (by_flow-Careful cmd.flow (host.release h) c) h)))

    roll_back-Lawful : (o : Option Bytes) → Lawful (roll_back host cmd base o)
    roll_back-Lawful none = deploy_release-Lawful
    roll_back-Lawful (some dir) = swap_to-Lawful host cmd dir _ activate-Sound

    roll_back-Careful :
        (o : Option Bytes)
        → (continues cmd ≡ false) ⊎ (cmd.flow ≡ [])
        → Careful (roll_back host cmd base o)
    roll_back-Careful none c = deploy_release-Careful c
    roll_back-Careful (some dir) c = swap_to-Careful host cmd dir _ activate-Sound

    abbrev pinned : List Did → Run Failure
    pinned h =
        if cmd.rollback_sha == []
        then deploy_release host cmd base
        else roll_back host cmd base (host.find_release h cmd.rollback_sha)

    deploy_pinned-Lawful : Lawful (deploy_pinned host cmd base)
    unfolding deploy_pinned
    deploy_pinned-Lawful = reading-Lawful pinned (λ h.
        if-Lawful (cmd.rollback_sha == []) _ _ deploy_release-Lawful
          (roll_back-Lawful (host.find_release h cmd.rollback_sha)))

    deploy_pinned-Careful :
        (continues cmd ≡ false) ⊎ (cmd.flow ≡ []) → Careful (deploy_pinned host cmd base)
    unfolding deploy_pinned
    deploy_pinned-Careful c h =
        if-Careful (cmd.rollback_sha == []) _ _ (deploy_release-Careful c)
          (roll_back-Careful (host.find_release h cmd.rollback_sha) c) h

    abbrev migrating : Run Failure → Run Failure
    migrating next =
        and_then (λ e. in_phase (codes "release") (codes "migrate to release layout: " ++ e))
          (perform host migrate) next

    migrate_first-Lawful : (next : Run Failure) → Lawful next → Lawful (migrate_first host cmd next)
    unfolding migrate_first
    migrate_first-Lawful next l =
        reading-Lawful (λ h. if host.needs_migration h then migrating next else next)
          (λ h.
            if-Lawful (host.needs_migration h) _ _
              (and_then-Lawful _ _ _ (perform-Sound host migrate refl)
                (perform-IsQuiet host migrate refl) l)
              l)

    migrate_first-Careful :
        (next : Run Failure) → Careful next → Careful (migrate_first host cmd next)
    unfolding migrate_first
    migrate_first-Careful next c h =
        if-Careful (host.needs_migration h) _ _
          (and_then-Careful _ _ _ (perform-Sound host migrate refl) c) c h

  deploy-Lawful : (dest_path : Bytes) → Lawful (deploy host cmd dest_path)
  unfolding deploy
  deploy-Lawful dest_path =
      let base = clean dest_path in
      if-Lawful (not (is_rooted base)) _ _ (fail_with-Lawful _) (
        step-Lawful base _ resolve_user _ refl refl (
          step-Lawful base _ preflight _ refl refl
            (migrate_first-Lawful base _ (deploy_pinned-Lawful base))))

  deploy-Careful :
      (dest_path : Bytes)
      → (continues cmd ≡ false) ⊎ (cmd.flow ≡ [])
      → Careful (deploy host cmd dest_path)
  unfolding deploy
  deploy-Careful dest_path c =
      let base = clean dest_path in
      if-Careful (not (is_rooted base)) _ _ (λ h u k. k)
        (step-Careful base _ resolve_user _ refl (
          step-Careful base _ preflight _ refl
            (migrate_first-Careful base _ (deploy_pinned-Careful base c))))

  -- A deploy that reports no error made a release live, and nothing that it did failed, but for what
  -- Prune may have left: no script, no process, no probe and no boot persistence, also with a flow and
  -- where failed waves do not end it.
  pub deploy_succeeded :
      (dest_path : Bytes)
      → (deploy host cmd dest_path []).0 ≡ none
      → (is_live (deploy host cmd dest_path []).1 ≡ true)
        × (is_spotless (deploy host cmd dest_path []).1 ≡ true)
  unfolding is_spotless
  deploy_succeeded dest_path e =
      let l = deploy-Lawful dest_path in (l.lives [] e, l.tells [] refl e)

  -- However a deploy ends, with a flow or without, no pre-start script ran, no process was started, none
  -- was probed and none was made to survive a reboot before the release was live.
  pub deploy_guarded : (dest_path : Bytes) → is_guarded (deploy host cmd dest_path []).1 ≡ true
  unfolding is_guarded
  deploy_guarded dest_path = (deploy-Lawful dest_path).quiet [] refl

  -- Without a flow, or if a failed wave ends the deploy, a release is made live only if nothing has
  -- failed before: a failed install leaves the previous release live.
  pub deploy_careful :
      (dest_path : Bytes)
      → (continues cmd ≡ false) ⊎ (cmd.flow ≡ [])
      → is_careful (deploy host cmd dest_path []).1 ≡ true
  unfolding is_spotless is_careful
  deploy_careful dest_path c = deploy-Careful dest_path c [] refl refl
