-- ===== src/Deploy/Flow/Lawful.antt =====
-- A flow reports every failure, and nothing in it needs a live release before there is one.
use cron_compose.Prelude.{
  ◌≡◌, ◌≢◌, refl, Bool, true, false, List, [], ◌∷◌, ◌++◌, none, some, Bytes, if◌then◌else◌,
}
use cron_compose.Deploy.Plan.{App, Task, Project}
use cron_compose.Deploy.Places.{apps_of}
use cron_compose.Deploy.Acts.{Run, Host, fail_with, join_errors, Failure}
use cron_compose.Deploy.Acts.Sound.{
  Sound, Fails, Handles, fail_with-Sound, reading-Sound, settle-Sound, settle-Fails, if-Sound,
  if-Fails,
}
use cron_compose.Deploy.Acts.Lawful.{
  Lawful, Careful, settle-Lawful, settle-Careful, reading-Lawful, if-Lawful, if-Careful,
  fail_with-Lawful,
}
use cron_compose.Deploy.Stages.{continues, finish}
use cron_compose.Deploy.Stages.Sound.{finish-Sound, finish-Fails, join_errors-append}
use cron_compose.Deploy.Flow.{
  is_post_release, is_pre_release, needs, run_flow_wave, swap_to, end_flow, after_wave, flow_waves,
  run_deploy_flow, mixed,
}
use cron_compose.Deploy.Flow.Released.{run_flow_wave-Sound, run_flow_wave-IsQuiet}
use cron_compose.Deploy.Flow.Swap.{swap_to-Lawful, swap_to-Careful, swap_to-Fails}

module _ (host : Host) (cmd : Project) where
  module _ (release current : Bytes) where
    -- Behind a failed wave the flow does not succeed.
    after_wave-Fails :
        (errs : List Bytes) (wave : Run Failure) (next : List Bytes → Run Failure)
        → join_errors errs ≢ none
        → ((es : List Bytes) → join_errors es ≢ none → Fails (next es))
        → Fails (after_wave host cmd release current errs wave next)
    after_wave-Fails errs wave next n k =
        settle-Fails _ _ wave
          (λ f.
            if-Fails (continues cmd) _ _ (k _ (join_errors-append host cmd current errs f.text))
              (λ h e. cc))
          (k errs n)

    after_wave-Handles :
        (errs : List Bytes) (next : List Bytes → Run Failure)
        → ((es : List Bytes) → Sound (next es))
        → ((es : List Bytes) → join_errors es ≢ none → Fails (next es))
        → Handles (λ f. if continues cmd then next (errs ++ f.text ∷ []) else fail_with (some f))
    after_wave-Handles errs next s k = record {
      sound = λ f. if-Sound (continues cmd) _ _ (s _) (fail_with-Sound (some f));
      fails = λ f.
          if-Fails (continues cmd) _ _ (k _ (join_errors-append host cmd current errs f.text))
            (λ h e. cc);
    }

    released-Fails :
        (apps : List App) (ws : List (List Task)) (errs : List Bytes)
        → join_errors errs ≢ none
        → Fails (flow_waves host cmd release current true apps ws errs)
    unfolding flow_waves end_flow
    released-Fails apps [] errs n = finish-Fails host cmd current errs n
    released-Fails apps ([] ∷ ws) errs n = released-Fails apps ws errs n
    released-Fails apps ((t ∷ ts) ∷ ws) errs n =
        after_wave-Fails errs _ (λ es. flow_waves host cmd release current true apps ws es) n
          (λ es. released-Fails apps ws es)

    released-Sound :
        (apps : List App) (ws : List (List Task)) (errs : List Bytes)
        → Sound (flow_waves host cmd release current true apps ws errs)
    unfolding flow_waves end_flow
    released-Sound apps [] errs = finish-Sound host cmd current errs
    released-Sound apps ([] ∷ ws) errs = released-Sound apps ws errs
    released-Sound apps ((t ∷ ts) ∷ ws) errs =
        settle-Sound _ _ _ (run_flow_wave-Sound host cmd current current true apps (t ∷ ts))
          (after_wave-Handles errs (λ es. flow_waves host cmd release current true apps ws es)
            (λ es. released-Sound apps ws es) (λ es. released-Fails apps ws es))
          (released-Sound apps ws errs)

    -- The wave that needs the release, behind the swap.
    abbrev swapped_wave : List Bytes → List Task → List (List Task) → Run Failure
    swapped_wave errs ts ws h =
        let apps' = apps_of (host.exists h) cmd current in
        after_wave host cmd release current errs
          (run_flow_wave host cmd current current true apps' ts)
          (flow_waves host cmd release current true apps' ws) h

    swapped_wave-Sound :
        (errs : List Bytes) (ts : List Task) (ws : List (List Task))
        → Sound (swapped_wave errs ts ws)
    swapped_wave-Sound errs ts ws =
        reading-Sound
          (λ h.
            let apps' = apps_of (host.exists h) cmd current in
            after_wave host cmd release current errs
              (run_flow_wave host cmd current current true apps' ts)
              (flow_waves host cmd release current true apps' ws))
          (λ h.
            let apps' = apps_of (host.exists h) cmd current in
            settle-Sound _ _ _ (run_flow_wave-Sound host cmd current current true apps' ts)
              (after_wave-Handles errs (λ es. flow_waves host cmd release current true apps' ws es)
                (λ es. released-Sound apps' ws es) (λ es. released-Fails apps' ws es))
              (released-Sound apps' ws errs))

    swapped_wave-Fails :
        (errs : List Bytes) (ts : List Task) (ws : List (List Task))
        → join_errors errs ≢ none
        → Fails (swapped_wave errs ts ws)
    swapped_wave-Fails errs ts ws n h =
        let apps' = apps_of (host.exists h) cmd current in
        after_wave-Fails errs (run_flow_wave host cmd current current true apps' ts)
          (λ es. flow_waves host cmd release current true apps' ws es) n
          (λ es. released-Fails apps' ws es) h

    unreleased-Fails :
        (apps : List App) (ws : List (List Task)) (errs : List Bytes)
        → join_errors errs ≢ none
        → Fails (flow_waves host cmd release current false apps ws errs)
    unfolding flow_waves end_flow
    unreleased-Fails apps [] errs n =
        swap_to-Fails host cmd release (finish host cmd current errs)
          (finish-Fails host cmd current errs n)
    unreleased-Fails apps ([] ∷ ws) errs n = unreleased-Fails apps ws errs n
    unreleased-Fails apps ((t ∷ ts) ∷ ws) errs n =
        if-Fails (needs is_post_release (t ∷ ts)) _ _
          (if-Fails (needs is_pre_release (t ∷ ts)) _ _ (λ h e. cc)
            (swap_to-Fails host cmd release (swapped_wave errs (t ∷ ts) ws)
              (swapped_wave-Fails errs (t ∷ ts) ws n)))
          (after_wave-Fails errs (run_flow_wave host cmd release current false apps (t ∷ ts))
            (λ es. flow_waves host cmd release current false apps ws es) n
            (λ es. unreleased-Fails apps ws es))

    unreleased-Lawful :
        (apps : List App) (ws : List (List Task)) (errs : List Bytes)
        → Lawful (flow_waves host cmd release current false apps ws errs)
    unfolding flow_waves end_flow
    unreleased-Lawful apps [] errs =
        swap_to-Lawful host cmd release (finish host cmd current errs)
          (finish-Sound host cmd current errs)
    unreleased-Lawful apps ([] ∷ ws) errs = unreleased-Lawful apps ws errs
    unreleased-Lawful apps ((t ∷ ts) ∷ ws) errs =
        by_need (needs is_post_release (t ∷ ts)) refl (λ es. unreleased-Lawful apps ws es)
      where
        early : Run Failure
        early =
            after_wave host cmd release current errs
              (run_flow_wave host cmd release current false apps (t ∷ ts))
              (flow_waves host cmd release current false apps ws)

        late : Run Failure
        late = swap_to host cmd release (swapped_wave errs (t ∷ ts) ws)

        by_need :
            (b : Bool)
            → needs is_post_release (t ∷ ts) ≡ b
            → ((es : List Bytes) → Lawful (flow_waves host cmd release current false apps ws es))
            → Lawful (
                if b
                then (if needs is_pre_release (t ∷ ts)
                    then fail_with (some (mixed host cmd))
                    else late)
                else early)
        by_need true e next =
            if-Lawful (needs is_pre_release (t ∷ ts)) _ _ (fail_with-Lawful (mixed host cmd)) (
              swap_to-Lawful host cmd release (swapped_wave errs (t ∷ ts) ws)
                (swapped_wave-Sound errs (t ∷ ts) ws))
        by_need false e next =
            settle-Lawful _ _ _ (run_flow_wave-Sound host cmd current release false apps (t ∷ ts))
              (run_flow_wave-IsQuiet host cmd current release apps (t ∷ ts) e)
              (λ f. (if-Lawful (continues cmd) _ _ (next _) (fail_with-Lawful f)).quiet)
              (λ f.
                if-Fails (continues cmd) _ _
                  (unreleased-Fails apps ws _ (join_errors-append host cmd current errs f.text))
                  (λ h n. cc))
              (next errs)

    pub run_deploy_flow-Lawful : Lawful (run_deploy_flow host cmd release current)
    unfolding run_deploy_flow
    run_deploy_flow-Lawful =
        reading-Lawful
          (λ h.
            flow_waves host cmd release current false (apps_of (host.exists h) cmd release) cmd.flow
              [])
          (λ h. unreleased-Lawful (apps_of (host.exists h) cmd release) cmd.flow [])

    unreleased-Careful :
        (apps : List App) (ws : List (List Task)) (errs : List Bytes)
        → continues cmd ≡ false
        → Careful (flow_waves host cmd release current false apps ws errs)
    unfolding flow_waves end_flow
    unreleased-Careful apps [] errs stop =
        swap_to-Careful host cmd release (finish host cmd current errs)
          (finish-Sound host cmd current errs)
    unreleased-Careful apps ([] ∷ ws) errs stop = unreleased-Careful apps ws errs stop
    unreleased-Careful apps ((t ∷ ts) ∷ ws) errs stop =
        if-Careful (needs is_post_release (t ∷ ts)) _ _
          (if-Careful (needs is_pre_release (t ∷ ts)) _ _ (λ h u c. c)
            (swap_to-Careful host cmd release (swapped_wave errs (t ∷ ts) ws)
              (swapped_wave-Sound errs (t ∷ ts) ws)))
          (settle-Careful _ _ _ (run_flow_wave-Sound host cmd current release false apps (t ∷ ts))
            (λ f. rw stop (fail_with-Sound (some f))) (unreleased-Careful apps ws errs stop))

    -- A flow that stops at its first failure makes the release live only behind successes.
    pub run_deploy_flow-Careful :
        continues cmd ≡ false → Careful (run_deploy_flow host cmd release current)
    unfolding run_deploy_flow
    run_deploy_flow-Careful stop h =
        unreleased-Careful (apps_of (host.exists h) cmd release) cmd.flow [] stop h
