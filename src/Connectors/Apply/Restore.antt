-- ===== src/Connectors/Apply/Restore.antt =====
-- After the write of `applyConfig` of agent/internal/connectors/safety.go: a failure from then on
-- brings the old file back.
use cron_compose.Prelude.{
  ◌≡◌, refl, ◌∙◌, Bool, true, false, not, ◌||◌, ◌&&◌, List, [], ◌∷◌, ◌++◌, Option, none, some,
  Bytes, bytes_eq, ◌==◌, if◌then◌else◌, arith,
}
use cron_compose.Prelude.Text.{codes}
use cron_compose.Connectors.Host.{Host, IsLawful, Read, missing, content}
use cron_compose.Connectors.Privilege.Reads.{read-service_status}
use cron_compose.Connectors.Files.{Error, write_file_atomic, remove_file}
use cron_compose.Connectors.Files.Outcome.{write_file_atomic-Wrote, remove_file_lem}
use cron_compose.Connectors.Command.{
  Command, Step, invalid, is_success, Result, is_failed, step, fail, Instance, Manager,
}
use cron_compose.Connectors.Apply.{
  error_text, unit_of, health_of, after_pause, service_healthy, reactivated, after_restore,
  rollback, after_health, after_activate, after_live,
}

-- Whether a step of this name is reported as failed.
unfoldable pub failed_step : Bytes → List Step → Bool
failed_step name [] = false
failed_step name (s ∷ steps) = (s.name == name && not s.ok) || failed_step name steps

pub failed_step-append :
    (name : Bytes) (xs ys : List Step)
    → failed_step name (xs ++ ys) ≡ (failed_step name xs || failed_step name ys)
unfolding failed_step
failed_step-append name [] ys = refl
failed_step-append name (x ∷ xs) ys = ground (arith, failed_step-append name xs ys)

module _ (H : Host) (M : Manager H) (inst : Instance) (path : Bytes) where
  open H use {State, read, digest}

  -- The provider's own calls leave the file alone, as its interface documents.
  pub record Leaves : Type 0 where
    pub validate : (b : Bytes) (s : State) → read path (M.validate inst path b s).1 ≡ read path s
    pub validate_live : (s : State) → read path (M.validate_live inst path s).1 ≡ read path s
    pub activate : (s : State) → read path (M.activate inst path s).1 ≡ read path s

  -- What a reader finds, from what the backup found.
  abbrev pub backed_up : Option Bytes → Read
  backed_up none = missing
  backed_up (some b) = content b

  -- The result reports no failed step of writing the old file back.
  abbrev pub IsBack : Result → Type 0
  IsBack r = failed_step (codes "rollback") r.steps ≡ false

  -- After the write: success means the new content, and any other status the old one.
  pub record Settles (new : Bytes) (old : Read) (r : Result × State) : Type 0 where
    pub settled : is_success r.0.status ≡ true → read path r.1 ≡ content new
    pub summed : is_success r.0.status ≡ true → r.0.checksum ≡ digest new
    pub restored : is_success r.0.status ≡ false → IsBack r.0 → read path r.1 ≡ old

  module _ (L : IsLawful H) (N : Leaves) (named : H.may_be_temp path ≡ false) where
    after_restore_lem :
        (new : Bytes) (old : Read) (cause : Result) (steps : List Step) (o : Error × State)
        → is_success cause.status ≡ false
        → (o.0 ≡ none → read path o.1 ≡ old)
        → Settles new old (after_restore H M inst path cause steps o)
    unfolding after_restore reactivated failed_step
    after_restore_lem new old cause steps (some f, s) h back = record {
      settled = λ e. ground (arith, e);
      summed = λ e. ground (arith, e);
      restored = λ e q.
          let ours = step (codes "rollback") false (error_text f) ∷ [] in
          ground (arith, q, failed_step-append (codes "rollback") steps ours);
    }
    after_restore_lem new old cause steps (none, s) h back = record {
      settled = λ e. ground (arith, e, h);
      summed = λ e. ground (arith, e, h);
      restored = λ e q. N.activate s ∙ back refl;
    }

    module _ (before : Option Bytes) (cmd : Command) (here : cmd.ref ≡ path) where
      rollback-Settles :
          (cause : Result) (steps : List Step) (s : State)
          → is_success cause.status ≡ false
          → Settles cmd.content (backed_up before) (rollback H M inst cmd.ref before cause steps s)
      unfolding rollback
      rollback-Settles cause steps s h = by_before before
        where
          by_before :
              (o : Option Bytes)
              → Settles cmd.content (backed_up o) (rollback H M inst cmd.ref o cause steps s)
          by_before none = rw here (
              after_restore_lem cmd.content missing cause steps (remove_file H path s) h
                (remove_file_lem H L path s))
          by_before (some b) = rw here (
              after_restore_lem cmd.content (content b) cause steps (write_file_atomic H path b s) h
                (write_file_atomic-Wrote H L path named b s).written)

    read-service_healthy : (s : State) → read path (service_healthy H inst s).1 ≡ read path s
    unfolding service_healthy after_pause health_of
    read-service_healthy s =
        ground
          (arith, L.read-pause path s, read-service_status H L path (unit_of H inst) (H.pause s).1)

    module _ (before : Option Bytes) (cmd : Command) (here : cmd.ref ≡ path) where
      abbrev pub Settled : Result × State → Type 0
      Settled = Settles cmd.content (backed_up before)

      after_health-Settles :
          (steps : List Step) (o : (Bool × Bytes) × State)
          → read path o.1 ≡ content cmd.content
          → Settled (after_health H M inst before cmd steps o)
      unfolding after_health
      after_health-Settles steps ((true, d), s) now = record {
        settled = λ e. now;
        summed = λ e. refl;
        restored = λ e. ground (arith, e);
      }
      after_health-Settles steps ((false, d), s) now = rollback-Settles before cmd here _ _ s refl

      after_activate-Settles :
          (steps : List Step) (o : Result × State)
          → read path o.1 ≡ content cmd.content
          → Settled (after_activate H M inst before cmd steps o)
      unfolding after_activate
      after_activate-Settles steps (act, s) now = by_status (is_success act.status) refl
        where
          steps' : List Step
          steps' = steps ++ step (codes "activate") (not (is_failed act)) act.message ∷ []

          by_status :
              (b : Bool)
              → is_success act.status ≡ b
              → Settled (
                  if not b
                  then rollback H M inst cmd.ref before act steps' s
                  else after_health H M inst before cmd steps' (service_healthy H inst s))
          by_status true h =
              after_health-Settles steps' (service_healthy H inst s) (read-service_healthy s ∙ now)
          by_status false h = rollback-Settles before cmd here act steps' s h

      pub after_live-Settles :
          (steps : List Step) (o : Result × State)
          → read path o.1 ≡ content cmd.content
          → Settled (after_live H M inst before cmd steps o)
      unfolding after_live
      after_live-Settles steps (lv, s) now = by_status (is_success lv.status)
        where
          steps' : List Step
          steps' = steps ++ step (codes "validate-live") (not (is_failed lv)) lv.message ∷ []

          cause : Result
          cause = fail invalid (codes "config is invalid in context: " ++ lv.message) []

          activated : read path (M.activate inst cmd.ref s).1 ≡ content cmd.content
          activated = rw here (N.activate s ∙ now)

          by_status :
              (b : Bool)
              → Settled (
                  if not b
                  then rollback H M inst cmd.ref before cause steps' s
                  else after_activate H M inst before cmd steps' (M.activate inst cmd.ref s))
          by_status true = after_activate-Settles steps' (M.activate inst cmd.ref s) activated
          by_status false = rollback-Settles before cmd here cause steps' s refl
