-- ===== src/Connectors/Apply.antt =====
-- The write pipeline of agent/internal/connectors/safety.go: `applyConfig` and `rollback`.
pub mod Restore
pub mod Outcome
use cron_compose.Prelude.{
  ℕ, zero, suc, Bool, true, false, not, ◌||◌, ◌&&◌, List, [], ◌∷◌, ◌++◌, Option, none, some, Bytes,
  bytes_eq, ◌==◌, if◌then◌else◌, length,
}
use cron_compose.Prelude.Text.{codes, decimal}
use cron_compose.Connectors.Host.{Host, Read, missing, unreadable, content}
use cron_compose.Connectors.Privilege.{service_status}
use cron_compose.Connectors.Files.{
  Fault, no_privilege, failure, Error, write_file_atomic, remove_file,
}
use cron_compose.Connectors.Command.{
  Command, Step, Status, failed, invalid, unauthorized, Result, is_failed, step, fail, ok_with,
  Instance, Manager, Reply,
}

unfoldable pub take : ℕ → Bytes → Bytes
take zero s = []
take (suc n) [] = []
take (suc n) (c ∷ s) = c ∷ take n s

unfoldable pub uses_systemd_health : Bytes → Bool
uses_systemd_health kind =
    not (kind == codes "pm2" || kind == codes "docker" || kind == codes "systemd")

abbrev pub error_text : Fault → Bytes
error_text no_privilege = codes "no privilege: agent is not root and has no passwordless sudo grant"
error_text (failure msg) = msg

abbrev pub status_for_write : Fault → Status
status_for_write no_privilege = unauthorized
status_for_write (failure _) = failed

module _ (H : Host) where
  open H use {State, read, pause, digest}

  -- The unit of the instance, or else of its kind.
  abbrev unit_of : Instance → Bytes
  unit_of inst = if inst.instance_name == [] then inst.kind else inst.instance_name

  health_of : Bytes → Bytes × State → (Bool × Bytes) × State
  health_of unit (st, s) =
      if st == codes "running" || st == codes "unknown"
      then ((true, st), s)
      else ((false, codes "systemd reports " ++ (unit ++ (codes " is " ++ st))), s)

  after_pause : Bytes → Bool × State → (Bool × Bytes) × State
  after_pause unit (false, s) = ((false, codes "context cancelled during health check"), s)
  after_pause unit (true, s) = health_of unit (service_status H unit s)

  unfoldable pub service_healthy : Instance → State → (Bool × Bytes) × State
  unfolding after_pause health_of
  service_healthy inst s =
      if uses_systemd_health inst.kind
      then after_pause (unit_of inst) (pause s)
      else ((true, codes "n/a for " ++ inst.kind), s)

  short_sum : Bytes → Bytes
  short_sum b = take 12 (digest b)

  module _ (M : Manager H) (inst : Instance) where
    reactivated : Result → List Step → Result × State → Result × State
    reactivated cause steps (re, s) = (
      fail cause.status (cause.message ++ codes " (rolled back)")
          (steps ++ step (codes "rollback-activate") (not (is_failed re)) re.message ∷ []),
      s,
    )

    after_restore : Bytes → Result → List Step → Error × State → Result × State
    after_restore path cause steps (some f, s) = (
      fail failed
          (codes "apply failed AND rollback failed, the config on disk is the rejected one: "
            ++ cause.message)
          (steps ++ step (codes "rollback") false (error_text f) ∷ []),
      s,
    )
    after_restore path cause steps (none, s) =
        reactivated cause
          (steps ++ step (codes "rollback") true (codes "previous config restored on disk") ∷ [])
          (M.activate inst path s)

    -- `before` is `none` where the file did not exist.
    unfoldable pub rollback : Bytes → Option Bytes → Result → List Step → State → Result × State
    unfolding after_restore reactivated
    rollback path none cause steps s = after_restore path cause steps (remove_file H path s)
    rollback path (some b) cause steps s =
        after_restore path cause steps (write_file_atomic H path b s)

    module _ (before : Option Bytes) (cmd : Command) where
      after_health : List Step → (Bool × Bytes) × State → Result × State
      after_health steps ((true, _), s) = (
        record (ok_with (codes "applied and activated")
            (steps ++ step (codes "health") true (codes "service is running") ∷ [])) {
              checksum = digest cmd.content;
            },
        s,
      )
      after_health steps ((false, detail), s) =
          rollback cmd.ref before
            (fail failed (codes "service did not come back healthy: " ++ detail) [])
            (steps ++ step (codes "health") false detail ∷ []) s

      after_activate : List Step → Result × State → Result × State
      after_activate steps (act, s) =
          let steps' = steps ++ step (codes "activate") (not (is_failed act)) act.message ∷ [] in
          if is_failed act
          then rollback cmd.ref before act steps' s
          else after_health steps' (service_healthy inst s)

      pub after_live : List Step → Result × State → Result × State
      after_live steps (lv, s) =
          let steps' = steps ++ step (codes "validate-live") (not (is_failed lv)) lv.message ∷ [] in
          if is_failed lv
          then rollback cmd.ref before
              (fail invalid (codes "config is invalid in context: " ++ lv.message) []) steps' s
          else after_activate steps' (M.activate inst cmd.ref s)

      after_write : List Step → Error × State → Result × State
      after_write steps (some f, s) = (
        fail (status_for_write f) (codes "write failed: " ++ error_text f)
            (steps ++ step (codes "write") false (error_text f) ∷ []),
        s,
      )
      after_write steps (none, s) =
          after_live
            (steps
              ++ step (codes "write") true (decimal (length cmd.content) ++ codes " bytes") ∷ [])
            (M.validate_live inst cmd.ref s)

      after_validate : List Step → Result × State → Result × State
      after_validate steps (v, s) =
          let steps' = steps ++ step (codes "validate") (not (is_failed v)) v.message ∷ [] in
          if is_failed v
          then (fail v.status v.message steps', s)
          else (if cmd.dry_run
              then (ok_with (codes "validated; not applied (dry run)") steps', s)
              else after_write steps' (write_file_atomic H cmd.ref cmd.content s))

      unfoldable pub from_validate : List Step → State → Result × State
      unfolding after_validate after_write after_live after_activate after_health rollback
      from_validate steps s = after_validate steps (M.validate inst cmd.ref cmd.content s)

    backup_step : Bytes → Step
    backup_step b =
        step (codes "backup") true
          (decimal (length b) ++ (codes " bytes, checksum " ++ short_sum b))

    unfoldable pub with_backup : Bytes → Command → State → Result × State
    unfolding backup_step short_sum from_validate
    with_backup b cmd s =
        let steps = backup_step b ∷ [] in
        if cmd.base_checksum == []
        then from_validate (some b) cmd steps s
        else (if digest b == cmd.base_checksum
            then from_validate (some b) cmd
                (steps ++ step (codes "precheck") true (codes "checksum matches") ∷ []) s
            else (
              fail invalid
                  (codes "the file changed on the server since it was read; reload and re-apply")
                  (steps
                    ++ step (codes "precheck") false
                        (codes "checksum " ++ (digest b ++ (codes " != " ++ cmd.base_checksum)))
                      ∷ []),
              s,
            ))

    unfoldable pub apply_config : Command → State → Result × State
    unfolding with_backup
    apply_config cmd s = elim (read cmd.ref s) [
      | missing ↦ from_validate none cmd (backup_step [] ∷ []) s
      | unreadable e ↦ (
        fail failed (codes "cannot read current config: " ++ e)
            (step (codes "backup") false e ∷ []),
        s,
      )
      | content b ↦ with_backup b cmd s
    ]
