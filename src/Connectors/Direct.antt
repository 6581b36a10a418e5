-- ===== src/Connectors/Direct.antt =====
-- direct.go of agent/internal/connectors, and the quoting of exec.go: lifecycle commands without a
-- discovered connector, run in a login shell.

pub mod Quoting
use cron_compose.Prelude.{
  ℕ, Bool, true, false, not, ◌||◌, ◌&&◌, List, [], ◌∷◌, ◌++◌, Option, none, some, Bytes, bytes_eq,
  nat_eq, ◌==◌, if◌then◌else◌,
}
use cron_compose.Prelude.Text.{codes}
use cron_compose.Prelude.Strings.{trim, any, strip_prefix}
use cron_compose.Users.{Process, Credential, Resolved, stay, switch, refuse, resolve, wrap_script}
use cron_compose.Connectors.Host.{Host}
use cron_compose.Connectors.Privilege.{trim_output}
use cron_compose.Connectors.Command.{
  failed, unsupported, Result, Step, step, fail, ok_with, valid_action, Reply,
}

-- `strings.ReplaceAll(s, "'", `'\''`)`.
unfoldable pub escape_quotes : Bytes → Bytes
escape_quotes [] = []
escape_quotes (c ∷ s) =
    let rest = escape_quotes s in
    if c == b'\'' then b'\'' ∷ b'\\' ∷ b'\'' ∷ b'\'' ∷ rest else c ∷ rest

unfoldable pub shell_quote : Bytes → Bytes
unfolding escape_quotes
shell_quote s = b'\'' ∷ (escape_quotes s ++ b'\'' ∷ [])

unfoldable pub shell_args : List Bytes → Bytes
unfolding shell_quote
shell_args [] = []
shell_args (a ∷ args) = 32 ∷ (shell_quote a ++ shell_args args)

unfoldable pub shell_join : Bytes → List Bytes → Bytes
unfolding shell_args
shell_join name args = shell_quote name ++ shell_args args

-- The text before the first line break.
unfoldable pub first_line : Bytes → Bytes
first_line [] = []
first_line (c ∷ s) = let rest = first_line s in if c == 10 || c == 13 then [] else c ∷ rest

abbrev is_odd : ℕ → Bool
is_odd c = c == 32 || c == 9 || c == b'/' || c == b'\\'

run_as_user : Bytes → Bytes → Bytes × Bytes
run_as_user content user = if any is_odd user then ([], content) else (user, [])

-- The user of a "run_as:" payload and the rest of it.
unfoldable pub split_run_as : Bytes → Bytes × Bytes
unfolding run_as_user first_line
split_run_as content = elim (strip_prefix (codes "run_as:") content) [
  | none ↦ ([], content)
  | some user ↦ run_as_user content (trim (first_line (trim user)))
]

unfoldable pub is_host_pm : Bytes → Bool
is_host_pm kind = kind == codes "pm2" || kind == codes "systemd" || kind == codes "docker"

-- `strings.Join(args, " ")`.
unfoldable pub spaced : List Bytes → Bytes
spaced [] = []
spaced (a ∷ []) = a
spaced (a ∷ b ∷ args) = a ++ 32 ∷ spaced (b ∷ args)

-- A command in a login shell, as the agent or as the user; the output is trimmed.
abbrev pub Shell : Host → Type 0
Shell H = Option Credential → Bytes → H.State → (Bytes × Option Bytes) × H.State

module _ (H : Host) (P : Process) (bash : Shell H) where
  open H use {State}

  abbrev as_resolved : Bytes → List Bytes → Resolved → State → (Bytes × Option Bytes) × State
  as_resolved name args (refuse e) s = (([], some e), s)
  as_resolved name args stay s = bash none (wrap_script (shell_join name args)) s
  as_resolved name args (switch c) s = bash (some c) (wrap_script (shell_join name args)) s

  unfoldable pub run_as : Bytes → Bytes → List Bytes → State → (Bytes × Option Bytes) × State
  run_as user name args s = as_resolved name args (resolve P (trim user)) s

  -- One command, its step, and its message for a success.
  abbrev reported : Bytes → Bytes → Bytes → (Bytes × Option Bytes) × State → Result × State
  reported label problem message ((out, none), s) = (ok_with message (step label true out ∷ []), s)
  reported label problem message ((out, some _), s) = (
    fail failed (problem ++ (codes " failed: " ++ trim_output out)) (step label false out ∷ []),
    s,
  )

  -- What `pm2` is called with for an action that is one call; `none` for others.
  unfoldable pub pm2_args : Bytes → Bytes → Option (List Bytes)
  pm2_args ref action =
      if action == codes "save" || action == codes "enable"
      then some (codes "save" ∷ [])
      else (if action == codes "startup"
          then some (codes "startup" ∷ [])
          else (if action == codes "pause"
              then some (codes "sendSignal" ∷ codes "SIGSTOP" ∷ ref ∷ [])
              else (if action == codes "unpause"
                  then some (codes "sendSignal" ∷ codes "SIGCONT" ∷ ref ∷ [])
                  else (if action == codes "start"
                        || action == codes "stop"
                        || action == codes "restart"
                        || action == codes "reload"
                        || action == codes "delete"
                        || action == codes "flush"
                      then some (action ∷ ref ∷ [])
                      else none))))

  saved : Bytes → Step → (Bytes × Option Bytes) × State → Result × State
  saved ref s ((out, none), st) = (
    ok_with (codes "process " ++ (ref ++ codes " stopped and removed from the boot list"))
        (s ∷ step (codes "pm2 save") true out ∷ []),
    st,
  )
  saved ref s ((out, some _), st) = (
    fail failed (codes "stopped, but pm2 save failed: " ++ trim_output out)
        (s ∷ step (codes "pm2 save") false out ∷ []),
    st,
  )

  stopped : Bytes → Bytes → (Bytes × Option Bytes) × State → Result × State
  stopped ref user ((out, some _), st) = (
    fail failed (codes "pm2 stop failed: " ++ trim_output out)
        (step (codes "pm2 stop " ++ ref) false out ∷ []),
    st,
  )
  stopped ref user ((out, none), st) =
      saved ref (step (codes "pm2 stop " ++ ref) true out)
        (run_as user (codes "pm2") (codes "save" ∷ []) st)

  -- `disable` is a stop and a save.
  unfoldable pub pm2_disable : Bytes → Bytes → Reply H
  unfolding stopped saved
  pm2_disable ref user s = stopped ref user (run_as user (codes "pm2") (codes "stop" ∷ ref ∷ []) s)

  pm2_call : Bytes → List Bytes → Reply H
  pm2_call user args s =
      let label = codes "pm2 " ++ spaced args in
      reported label label label (run_as user (codes "pm2") args s)

  unfoldable pub direct_pm2 : Bytes → Bytes → Bytes → Reply H
  unfolding pm2_call
  direct_pm2 ref action user s =
      if ref == []
        && not (action == codes "save" || action == codes "startup" || action == codes "enable")
      then (fail failed (codes "no pm2 process given") [], s)
      else elim (pm2_args ref action) [
        | some args ↦ pm2_call user args s
        | none ↦
            if action == codes "disable"
            then pm2_disable ref user s
            else (fail unsupported (codes "unknown action: " ++ action) [], s)
      ]

  -- systemctl says freeze and thaw.
  unfoldable pub sys_action : Bytes → Bytes
  sys_action action =
      if action == codes "pause"
      then codes "freeze"
      else (if action == codes "unpause" then codes "thaw" else action)

  unfoldable pub direct_systemd : Bytes → Bytes → Bytes → Reply H
  unfolding sys_action
  direct_systemd ref action user s =
      if ref == []
      then (fail failed (codes "no unit given") [], s)
      else reported (codes "systemctl --user " ++ (sys_action action ++ 32 ∷ ref))
          (codes "systemctl " ++ sys_action action) (codes "unit " ++ (ref ++ 32 ∷ action))
          (run_as user (codes "systemctl") (codes "--user" ∷ sys_action action ∷ ref ∷ []) s)

  unfoldable pub direct_docker : Bytes → Bytes → Bytes → Reply H
  direct_docker ref action user s =
      if ref == []
      then (fail failed (codes "no container given") [], s)
      else (if action == codes "start"
            || action == codes "stop"
            || action == codes "restart"
            || action == codes "pause"
            || action == codes "unpause"
          then reported (codes "docker " ++ (action ++ 32 ∷ ref)) (codes "docker " ++ action)
              (codes "container " ++ (ref ++ 32 ∷ action))
              (run_as user (codes "docker") (action ∷ ref ∷ []) s)
          else (
            fail unsupported (codes "action not supported without a docker connector: " ++ action)
                [],
            s,
          ))

  unfoldable pub direct_lifecycle : Bytes → Bytes → Bytes → Bytes → Reply H
  unfolding direct_pm2 direct_systemd direct_docker
  direct_lifecycle kind ref action user s =
      if valid_action action
      then (if kind == codes "pm2"
          then direct_pm2 ref action user s
          else (if kind == codes "systemd"
              then direct_systemd ref action user s
              else (if kind == codes "docker" then direct_docker ref action user s else (
                fail unsupported
                    (codes "no connector of kind " ++ (kind ++ codes " on this server")) [],
                s,
              ))))
      else (fail unsupported (codes "action not allowed: " ++ action) [], s)
