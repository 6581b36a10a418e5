-- ===== src/Connectors/Execute/Gates.antt =====
-- What `Executor.Execute` of agent/internal/connectors lets through to a provider.
use cron_compose.Prelude.{
  ◌≡◌, refl, ◌⊎◌, inl, inr, ap, Bool, true, false, List, [], Option, none, some, Bytes, bytes_eq,
  ◌==◌, if◌then◌else◌, arith,
}
use cron_compose.Prelude.Text.{codes}
use cron_compose.Users.{Process}
use cron_compose.Connectors.Host.{Host}
use cron_compose.Connectors.Command.{Command, is_success, Result, valid_action, Instance}
use cron_compose.Connectors.Direct.{split_run_as, Shell, direct_lifecycle}
use cron_compose.Connectors.Execute.{
  Provider, resolve, run_action, run_op, unresolved, on_resolved, by_provider, is_direct, execute,
}

-- No success, and this state.
abbrev Refused : {S : Type 0} → S → Result × S → Type 0
Refused s r = (is_success r.0.status ≡ false) × (r.1 ≡ s)

module _ (H : Host) (P : Process) (bash : Shell H) where
  open H use {State}

  direct_lifecycle-Refused :
      (kind ref action user : Bytes) (s : State)
      → valid_action action ≡ false
      → Refused s (direct_lifecycle H P bash kind ref action user s)
  unfolding direct_lifecycle
  direct_lifecycle-Refused kind ref action user s bad = rw bad (refl, refl)

  run_action-Refused :
      (p : Provider H) (inst : Instance) (cmd : Command) (s : State)
      → valid_action cmd.action ≡ false
      → Refused s (run_action H P bash p inst cmd s)
  unfolding run_action
  run_action-Refused p inst cmd s bad = ground (arith, bad)

  -- A lifecycle operation is `run_action`.
  run_op-Refused :
      (p : Provider H) (inst : Instance) (cmd : Command) (s : State)
      → cmd.op ≡ codes "lifecycle"
      → valid_action cmd.action ≡ false
      → Refused s (run_op H P bash p inst cmd s)
  unfolding run_op
  run_op-Refused p inst cmd s op bad = ground (
    arith,
    op,
    ap (λ o. o == codes "status") op,
    ap (λ o. o == codes "list") op,
    ap (λ o. o == codes "inspect") op,
    ap (λ o. o == codes "ports") op,
    ap (λ o. o == codes "lifecycle") op,
    run_action-Refused p inst cmd s bad,
  )

  by_provider-Refused :
      (ps : List (Provider H)) (cmd : Command) (s : State)
      → cmd.op ≡ codes "lifecycle"
      → valid_action cmd.action ≡ false
      → Refused (resolve H ps cmd.kind cmd.instance_name s).1 (by_provider H P bash ps cmd s)
  unfolding by_provider on_resolved unresolved
  by_provider-Refused ps cmd s op bad = by_found (resolve H ps cmd.kind cmd.instance_name s)
    where
      by_found :
          (o : Option (Provider H × Instance) × State) → Refused o.1 (on_resolved H P bash cmd o)
      by_found (none, s') = ground (
        arith,
        op,
        ap (λ o. o == codes "lifecycle") op,
        direct_lifecycle-Refused cmd.kind cmd.ref cmd.action [] s' bad,
      )
      by_found (some (p, inst), s') = run_op-Refused p inst cmd s' op bad

  -- A lifecycle command with a verb that is not in the allowlist does not succeed, and nothing is done
  -- but the detection of the instances, if it got that far.
  pub unknown_action :
      (ps : List (Provider H)) (cmd : Command) (s : State)
      → cmd.op ≡ codes "lifecycle"
      → valid_action cmd.action ≡ false
      → let r = execute H P bash ps cmd s in
        (is_success r.0.status ≡ false)
        × ((r.1 ≡ s) ⊎ (r.1 ≡ (resolve H ps cmd.kind cmd.instance_name s).1))
  unfolding execute
  unknown_action ps cmd s op bad =
      let user = (split_run_as cmd.content).0 in
      let cmd' : Command = record cmd { content = (split_run_as cmd.content).1 } in
      rw (ap (λ o. o == codes "lifecycle") op) (by_test (is_direct H P bash cmd) user cmd' op)
    where
      detected : State
      detected = (resolve H ps cmd.kind cmd.instance_name s).1

      by_test :
          (direct : Bool) (user : Bytes) (cmd' : Command)
          → cmd'.op ≡ codes "lifecycle"
          → let r =
              if direct
              then direct_lifecycle H P bash cmd.kind cmd.ref cmd.action user s
              else by_provider H P bash ps (record cmd { content = cmd'.content }) s in
            (is_success r.0.status ≡ false) × ((r.1 ≡ s) ⊎ (r.1 ≡ detected))
      by_test true user cmd' op' =
          let r = direct_lifecycle-Refused cmd.kind cmd.ref cmd.action user s bad in (r.0, inl r.1)
      by_test false user cmd' op' =
          let r = by_provider-Refused ps (record cmd { content = cmd'.content }) s op bad in
          (r.0, inr r.1)
