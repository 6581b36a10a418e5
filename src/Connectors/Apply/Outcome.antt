-- ===== src/Connectors/Apply/Outcome.antt =====
-- What `applyConfig` of agent/internal/connectors/safety.go leaves on the disk, on every path.
use cron_compose.Prelude.{
  ◌≡◌, ◌≢◌, refl, ap, ◌∙◌, Bool, true, false, not, List, [], ◌∷◌, ◌++◌, Option, none, some, Bytes,
  bytes_eq, ◌==◌, ==_iff, if◌then◌else◌, arith, length,
}
use cron_compose.Prelude.Text.{codes, decimal}
use cron_compose.Connectors.Host.{Host, IsLawful, Read, missing, unreadable, content}
use cron_compose.Connectors.Files.{
  Fault, no_privilege, failure, Error, write_file_atomic, can_write,
}
use cron_compose.Connectors.Files.Outcome.{write_file_atomic-Wrote}
use cron_compose.Connectors.Command.{
  Command, Step, Status, failed, invalid, unauthorized, is_success, Result, is_failed, step, fail,
  ok_with, Instance, Manager,
}
use cron_compose.Connectors.Apply.{
  error_text, status_for_write, after_write, after_validate, from_validate, backup_step,
  with_backup, apply_config,
}
use cron_compose.Connectors.Apply.Restore.{
  failed_step, failed_step-append, Leaves, backed_up, IsBack, after_live-Settles,
}

module _ (H : Host) (M : Manager H) (inst : Instance) (cmd : Command) where
  open H use {State, read, digest}

  -- The steps from the validation on, begun with the file as `old`. The last case is that of an agent
  -- that writes the file by itself.
  pub record Pipelined (old : Read) (direct : Bool) (r : Result × State) : Type 0 where
    pub applied :
        is_success r.0.status ≡ true
        → cmd.dry_run ≡ false
        → (read cmd.ref r.1 ≡ content cmd.content) × (r.0.checksum ≡ digest cmd.content)
    pub dry : cmd.dry_run ≡ true → read cmd.ref r.1 ≡ old
    pub restored :
        is_success r.0.status ≡ false
        → IsBack H M inst cmd.ref r.0
        → failed_step (codes "write") r.0.steps ≡ false
        → read cmd.ref r.1 ≡ old
    pub unprivileged :
        r.0.status ≡ unauthorized → IsBack H M inst cmd.ref r.0 → read cmd.ref r.1 ≡ old
    pub by_itself :
        direct ≡ true
        → is_success r.0.status ≡ false
        → IsBack H M inst cmd.ref r.0
        → read cmd.ref r.1 ≡ old

  module _ (L : IsLawful H) (N : Leaves H M inst cmd.ref) (named : H.may_be_temp cmd.ref ≡ false)
      (before : Option Bytes) where
    abbrev old : Read
    old = backed_up H M inst cmd.ref before

    after_write-Pipelined :
        (direct : Bool) (steps : List Step) (o : Error × State)
        → cmd.dry_run ≡ false
        → (o.0 ≡ none → read cmd.ref o.1 ≡ content cmd.content)
        → (direct ≡ true → o.0 ≢ none → read cmd.ref o.1 ≡ old)
        → (o.0 ≡ some no_privilege → read cmd.ref o.1 ≡ old)
        → Pipelined old direct (after_write H M inst before cmd steps o)
    unfolding after_write failed_step
    after_write-Pipelined direct steps (some f, s) real wrote itself refused = record {
      applied = λ h. by_fault f h;
      dry = λ h. ground (arith, h, real);
      restored = λ h b w.
          let ours = step (codes "write") false (error_text f) ∷ [] in
          ground (arith, w, failed_step-append (codes "write") steps ours);
      unprivileged = λ h b. ground (arith, h, refused);
      by_itself = λ d h b. itself d (λ n. ground (arith, n));
    }
      where
        by_fault :
            (g : Fault)
            → is_success (status_for_write g) ≡ true
            → (cmd.dry_run ≡ false)
            → (read cmd.ref s ≡ content cmd.content) × (◌≡◌ {A = Bytes} [] (digest cmd.content))
        by_fault no_privilege h _ = ground (arith, h)
        by_fault (failure _) h _ = ground (arith, h)
    after_write-Pipelined direct steps (none, s) real wrote itself refused =
        let steps' =
          steps
          ++ step (codes "write") true (decimal (length cmd.content) ++ codes " bytes") ∷ [] in
        let live : State = (M.validate_live inst cmd.ref s).1 in
        let t =
          after_live-Settles H M inst cmd.ref L N named before cmd refl steps'
            (M.validate_live inst cmd.ref s) (N.validate_live s ∙ wrote refl) in
        record {
          applied = λ h _. (t.settled h, t.summed h);
          dry = λ h. ground (arith, h, real);
          restored = λ h b _. t.restored h b;
          unprivileged = λ h b. t.restored (ap is_success h) b;
          by_itself = λ d h b. t.restored h b;
        }

    from_validate-Pipelined :
        (steps : List Step) (s : State)
        → read cmd.ref s ≡ old
        → Pipelined old
            (can_write H cmd.ref (M.validate inst cmd.ref cmd.content s).1).0
            (from_validate H M inst before cmd steps s)
    unfolding from_validate after_validate
    from_validate-Pipelined steps s was =
        by_tests (is_success (M.validate inst cmd.ref cmd.content s).0.status) cmd.dry_run refl refl
      where
        v : Result
        v = (M.validate inst cmd.ref cmd.content s).0

        s1 : State
        s1 = (M.validate inst cmd.ref cmd.content s).1

        same : read cmd.ref s1 ≡ old
        same = N.validate cmd.content s ∙ was

        steps' : List Step
        steps' = steps ++ step (codes "validate") (not (is_failed v)) v.message ∷ []

        by_tests :
            (valid is_dry : Bool)
            → is_success v.status ≡ valid
            → cmd.dry_run ≡ is_dry
            → Pipelined old (can_write H cmd.ref s1).0 (
                if not valid
                then (fail v.status v.message steps', s1)
                else (if is_dry
                    then (ok_with (codes "validated; not applied (dry run)") steps', s1)
                    else after_write H M inst before cmd steps'
                        (write_file_atomic H cmd.ref cmd.content s1)))
        by_tests false is_dry h h' = record {
          applied = λ e. ground (arith, e, h);
          dry = λ _. same;
          restored = λ _ _ _. same;
          unprivileged = λ _ _. same;
          by_itself = λ _ _ _. same;
        }
        by_tests true true h h' = record {
          applied = λ e real. ground (arith, real, h');
          dry = λ _. same;
          restored = λ _ _ _. same;
          unprivileged = λ _ _. same;
          by_itself = λ _ _ _. same;
        }
        by_tests true false h h' =
            let w = write_file_atomic-Wrote H L cmd.ref named cmd.content s1 in
            after_write-Pipelined (can_write H cmd.ref s1).0 steps'
              (write_file_atomic H cmd.ref cmd.content s1) h' w.written (λ d n. w.direct d n ∙ same)
              (λ u. w.unprivileged u ∙ same)

    -- A result that is no success and left everything as it was.
    early-Pipelined :
        (direct : Bool) (was : Read) (status : Status) (message : Bytes) (steps : List Step)
        (s : State)
        → is_success status ≡ false
        → read cmd.ref s ≡ was
        → Pipelined was direct (fail status message steps, s)
    early-Pipelined direct was status message steps s h same = record {
      applied = λ e. ground (arith, e, h);
      dry = λ _. same;
      restored = λ _ _ _. same;
      unprivileged = λ _ _. same;
      by_itself = λ _ _ _. same;
    }

  -- `old` is what the file held before. The command that was made from other content than the file's
  -- changes nothing and is invalid.
  pub record Applies (s : State) (r : Result × State) : Type 0 where
    pub pipelined :
        Pipelined
          (read cmd.ref s)
          (can_write H cmd.ref (M.validate inst cmd.ref cmd.content s).1).0
          r
    pub stale :
        (b : Bytes)
        → read cmd.ref s ≡ content b
        → cmd.base_checksum ≢ []
        → digest b ≢ cmd.base_checksum
        → (r.0.status ≡ invalid) × (r.1 ≡ s)

  module _ (L : IsLawful H) (N : Leaves H M inst cmd.ref) (named : H.may_be_temp cmd.ref ≡ false)
      (s : State) where
    abbrev direct : Bool
    direct = (can_write H cmd.ref (M.validate inst cmd.ref cmd.content s).1).0

    with_backup-Pipelined :
        (b : Bytes)
        → read cmd.ref s ≡ content b
        → Pipelined (content b) direct (with_backup H M inst b cmd s)
    unfolding with_backup
    with_backup-Pipelined b was = by_tests (cmd.base_checksum == []) (digest b == cmd.base_checksum)
      where
        first : List Step
        first = backup_step H M inst b ∷ []

        checked : List Step
        checked = first ++ step (codes "precheck") true (codes "checksum matches") ∷ []

        mismatched : List Step
        mismatched =
            first
            ++ step (codes "precheck") false
                (codes "checksum " ++ (digest b ++ (codes " != " ++ cmd.base_checksum)))
              ∷ []

        by_tests :
            (no_base matches : Bool)
            → Pipelined (content b) direct (
                if no_base
                then from_validate H M inst (some b) cmd first s
                else (if matches then from_validate H M inst (some b) cmd checked s else (
                  fail invalid
                      (codes
                        "the file changed on the server since it was read; reload and re-apply")
                      mismatched,
                  s,
                )))
        by_tests true matches = from_validate-Pipelined L N named (some b) first s was
        by_tests false true = from_validate-Pipelined L N named (some b) checked s was
        by_tests false false =
            early-Pipelined L N named (some b) direct (content b) invalid
              (codes "the file changed on the server since it was read; reload and re-apply")
              mismatched s refl was

    stale_lem :
        (b : Bytes)
        → read cmd.ref s ≡ content b
        → cmd.base_checksum ≢ []
        → digest b ≢ cmd.base_checksum
        → let r = apply_config H M inst cmd s in (r.0.status ≡ invalid) × (r.1 ≡ s)
    unfolding apply_config with_backup
    stale_lem b h n m =
        rw (h, apply_config)
          (ground (arith, ==_iff cmd.base_checksum [], ==_iff (digest b) cmd.base_checksum))

    -- Success without a dry run leaves the new content, and its checksum in the result. A dry run, and
    -- any failure, leave what the file held before, unless the result has a failed step "rollback", or
    -- has a failed step "write" of an agent that neither writes the file by itself nor lacks the
    -- privilege to have it written. A base checksum of other content makes the command invalid, and
    -- nothing happens.
    pub apply_config-Applies : Applies s (apply_config H M inst cmd s)
    unfolding apply_config
    apply_config-Applies = record { pipelined = by_read (read cmd.ref s) refl; stale = stale_lem }
      where
        by_read :
            (o : Read)
            → read cmd.ref s ≡ o
            → Pipelined o direct (elim o as (λ _. Result × State) [
              | missing ↦ from_validate H M inst none cmd (backup_step H M inst [] ∷ []) s
              | unreadable e ↦ (
                fail failed
                    (codes "cannot read current config: " ++ e)
                    (step (codes "backup") false e ∷ []),
                s,
              )
              | content b ↦ with_backup H M inst b cmd s
            ])
        by_read missing h =
            from_validate-Pipelined L N named none (backup_step H M inst [] ∷ []) s h
        by_read (unreadable e) h =
            early-Pipelined L N named none direct (unreadable e) failed
              (codes "cannot read current config: " ++ e) (step (codes "backup") false e ∷ []) s
              refl h
        by_read (content b) h = with_backup-Pipelined b h

-- A candidate that the provider refuses, without a trace, leaves none: whatever the backup and the
-- checksum said.
pub apply_config-refused :
    (H : Host) (M : Manager H) (inst : Instance) (cmd : Command) (s : H.State) (v : Result)
    → M.validate inst cmd.ref cmd.content s ≡ (v, s)
    → is_success v.status ≡ false
    → let r = apply_config H M inst cmd s in (is_success r.0.status ≡ false) × (r.1 ≡ s)
unfolding apply_config with_backup from_validate after_validate
apply_config-refused H M inst cmd s v e h = ground (arith, e, h)
