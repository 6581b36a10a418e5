-- ===== src/Connectors/Execute.antt =====
-- executor.go of agent/internal/connectors, and `Resolve` of registry.go: a command finds its provider
-- and is run by it. The deadline of the command is one of the context's, which ends the calls that
-- take it.
pub mod Gates
use cron_compose.Prelude.{
  ℕ, Bool, true, false, not, ◌||◌, ◌&&◌, List, [], ◌∷◌, ◌++◌, length, Option, none, some, Bytes,
  bytes_eq, ◌==◌, if◌then◌else◌,
}
use cron_compose.Prelude.Text.{codes, decimal}
use cron_compose.Prelude.Strings.{trim}
use cron_compose.Users.{Process}
use cron_compose.Connectors.Host.{Host}
use cron_compose.Connectors.Command.{
  Command, failed, unauthorized, unsupported, Result, step, fail, ok_with, valid_action, Instance,
  Manager, Reply,
}
use cron_compose.Connectors.Apply.{apply_config}
use cron_compose.Connectors.Direct.{split_run_as, is_host_pm, Shell, direct_lifecycle}

module _ (H : Host) where
  open H use {State}

  -- `Provider`, with the optional interfaces. Of the resources only the number is read here.
  pub record Provider : Type 0 where
    pub kind : Bytes
    pub detect : State → List Instance × State
    pub count_resources : Instance → State → ℕ × State
    pub inspector : Option (Instance → Bytes → Reply H)
    pub port_lister : Option (Instance → Reply H)
    pub actor : Option (Instance → Bytes → Bytes → Reply H)
    pub log_reader : Option (Instance → Bytes → ℕ → Reply H)
    pub config_manager : Option (Manager H)

  unfoldable pub matching : Bytes → List Instance → Option Instance
  matching wanted [] = none
  matching wanted (i ∷ insts) =
      if wanted == [] || i.instance_name == wanted then some i else matching wanted insts

  abbrev pub found_in :
      Provider → Bytes → List Instance × State → Option (Provider × Instance) × State
  found_in p wanted (insts, s) = elim (matching wanted insts) [
    | none ↦ (none, s)
    | some i ↦ (some (p, i), s)
  ]

  -- Only the first provider of the kind is asked.
  unfoldable pub resolve :
      List Provider → Bytes → Bytes → State → Option (Provider × Instance) × State
  resolve [] kind wanted s = (none, s)
  resolve (p ∷ ps) kind wanted s =
      let here = found_in p wanted (p.detect s) in
      let there = resolve ps kind wanted s in if p.kind == kind then here else there

  module _ (P : Process) (bash : Shell H) where
    abbrev refuse : Bytes → State → Result × State
    refuse message s = (fail unsupported message [], s)

    run_list : Provider → Instance → Reply H
    run_list p inst s =
        let (n, s') = p.count_resources inst s in
        (
          ok_with (codes "listed resources")
              (step (codes "list") true (decimal n ++ codes " resources") ∷ []),
          s',
        )

    run_inspect : Provider → Instance → Command → Reply H
    run_inspect p inst cmd s = elim p.inspector [
      | none ↦ refuse (cmd.kind ++ codes " does not support object inspect") s
      | some f ↦
          if trim cmd.ref == []
          then (fail failed (codes "inspect requires a ref") [], s)
          else f inst cmd.ref s
    ]

    run_ports : Provider → Instance → Command → Reply H
    run_ports p inst cmd s = elim p.port_lister [
      | none ↦ refuse (cmd.kind ++ codes " does not report listening ports") s
      | some f ↦ f inst s
    ]

    run_action : Provider → Instance → Command → Reply H
    run_action p inst cmd s = elim p.actor [
      | none ↦ refuse (cmd.kind ++ codes " does not support lifecycle actions") s
      | some f ↦
          if valid_action cmd.action
          then (if inst.caps.can_lifecycle then f inst cmd.ref cmd.action s else (
            fail unauthorized
                (codes "this agent cannot drive "
                  ++ (cmd.kind ++ codes " (discovery reported it as not manageable)"))
                [],
            s,
          ))
          else refuse (codes "action not allowed: " ++ cmd.action) s
    ]

    run_logs : Provider → Instance → Command → Reply H
    run_logs p inst cmd s = elim p.log_reader [
      | none ↦ refuse (cmd.kind ++ codes " does not support process logs") s
      | some f ↦
          if trim cmd.ref == []
          then (fail failed (codes "logs requires a ref") [], s)
          else f inst cmd.ref 200 s
    ]

    no_manager : Command → Reply H
    no_manager cmd s = refuse (cmd.kind ++ codes " does not manage config files") s

    run_read : Provider → Instance → Command → Reply H
    run_read p inst cmd s = elim p.config_manager [
      | none ↦ no_manager cmd s
      | some m ↦ m.read_config inst cmd.ref s
    ]

    run_validate : Provider → Instance → Command → Reply H
    run_validate p inst cmd s = elim p.config_manager [
      | none ↦ no_manager cmd s
      | some m ↦ m.validate inst cmd.ref cmd.content s
    ]

    -- A rollback overwrites whatever is there.
    without_base : Command → Command
    without_base cmd = record cmd {
      base_checksum = if cmd.op == codes "rollback" then [] else cmd.base_checksum;
    }

    run_apply : Provider → Instance → Command → Reply H
    run_apply p inst cmd s = elim p.config_manager [
      | none ↦ no_manager cmd s
      | some m ↦ if inst.caps.can_edit then apply_config H m inst (without_base cmd) s else (
        fail unauthorized
            (codes "this agent cannot edit "
              ++ (cmd.kind
                  ++ codes " config (the files are not writable and there is no sudo grant)"))
            [],
        s,
      )
    ]

    unfoldable pub run_op : Provider → Instance → Command → Reply H
    unfolding run_list run_inspect run_ports run_action run_logs run_read run_validate run_apply
        without_base no_manager
    run_op p inst cmd s =
        if cmd.op == codes "status" || cmd.op == codes "list"
        then run_list p inst s
        else (if cmd.op == codes "inspect"
            then run_inspect p inst cmd s
            else (if cmd.op == codes "ports"
                then run_ports p inst cmd s
                else (if cmd.op == codes "lifecycle"
                    then run_action p inst cmd s
                    else (if cmd.op == codes "logs"
                        then run_logs p inst cmd s
                        else (if cmd.op == codes "read"
                            then run_read p inst cmd s
                            else (if cmd.op == codes "validate"
                                then run_validate p inst cmd s
                                else (if cmd.op == codes "apply" || cmd.op == codes "rollback"
                                    then run_apply p inst cmd s
                                    else refuse (codes "unknown op: " ++ cmd.op) s)))))))

    unfoldable pub unresolved : Command → Reply H
    unresolved cmd s =
        if cmd.op == codes "lifecycle" && is_host_pm cmd.kind
        then direct_lifecycle H P bash cmd.kind cmd.ref cmd.action [] s
        else refuse (codes "no connector of kind " ++ (cmd.kind ++ codes " on this server")) s

    on_resolved : Command → Option (Provider × Instance) × State → Result × State
    on_resolved cmd (none, s) = unresolved cmd s
    on_resolved cmd (some (p, inst), s) = run_op p inst cmd s

    unfoldable pub by_provider : List Provider → Command → Reply H
    unfolding on_resolved unresolved
    by_provider ps cmd s = on_resolved cmd (resolve ps cmd.kind cmd.instance_name s)

    unfoldable pub is_direct : Command → Bool
    is_direct cmd =
        not ((split_run_as cmd.content).0 == []) || (cmd.instance_name == [] && is_host_pm cmd.kind)

    -- Start and stop for another user, and those of the host's process managers, go past the
    -- providers.
    unfoldable pub execute : List Provider → Command → Reply H
    unfolding is_direct by_provider
    execute ps cmd s =
        if cmd.op == codes "lifecycle"
        then (let (user, rest) = split_run_as cmd.content in
            if is_direct cmd
            then direct_lifecycle H P bash cmd.kind cmd.ref cmd.action user s
            else by_provider ps (record cmd { content = rest }) s)
        else by_provider ps cmd s
