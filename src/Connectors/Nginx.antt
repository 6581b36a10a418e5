-- ===== src/Connectors/Nginx.antt =====
-- config_nginx.go and nginx_paths.go of agent/internal/connectors: the nginx provider.

pub mod Owned
use cron_compose.Prelude.{
  ℕ, ◌+◌, Bool, true, false, not, ◌||◌, ◌&&◌, List, [], ◌∷◌, ◌++◌, Option, none, some, Bytes,
  bytes_eq, ◌==◌, if◌then◌else◌,
}
use cron_compose.Prelude.Text.{codes, decimal}
use cron_compose.Prelude.Paths.{clean, join}
use cron_compose.Prelude.Strings.{strip_prefix}
use cron_compose.Connectors.Host.{Host, Read, missing, unreadable, content, Made, made, refused}
use cron_compose.Connectors.Privilege.{priv_run, systemd_available, service_status, trim_output}
use cron_compose.Connectors.Command.{
  Step, succeeded, failed, invalid, unauthorized, unsupported, Result, step, fail, ok_with,
  valid_action, config_bytes_result, Instance, Manager, Reply,
}
use cron_compose.Connectors.Braces.{BraceError, unexpected, unterminated, unclosed, balanced_braces}

unfoldable pub has_prefix : Bytes → Bytes → Bool
has_prefix p s = elim (strip_prefix p s) [ none ↦ false | some _ ↦ true ]

-- Whether a cleaned path is a base or lies below it.
unfoldable pub is_under : Bytes → Bytes → Bool
unfolding has_prefix
is_under base path = path == base || has_prefix (base ++ 47 ∷ []) path

unfoldable pub under_any : List Bytes → Bytes → Bool
unfolding is_under
under_any [] path = false
under_any (base ∷ bases) path = is_under (clean base) path || under_any bases path

unfoldable pub owns : Instance → Bytes → Bool
unfolding under_any
owns inst path = under_any inst.config_paths (clean path)

abbrev prefixes : List Bytes
prefixes =
    codes "/etc/nginx"
    ∷ codes "/opt/homebrew/etc/nginx"
    ∷ codes "/usr/local/etc/nginx"
    ∷ codes "/usr/local/nginx/conf"
    ∷ []

unfoldable pub main_config : Bytes → Bytes
main_config [] = []
main_config (c ∷ prefix) = join (c ∷ prefix) (codes "nginx.conf")

abbrev brace_text : BraceError → Bytes
brace_text (unexpected n) = codes "unexpected '}' on line " ++ decimal n
brace_text unterminated = codes "unterminated quoted string"
brace_text (unclosed n) = decimal n ++ codes " unclosed '{' block(s)"

abbrev outside : Bytes → Result
outside path =
    fail unauthorized (codes "path is outside this connector's config paths: " ++ path) []

abbrev could_not_stage : Bytes → Result
could_not_stage e = fail failed (codes "could not stage candidate: " ++ e) []

-- `unauthorized`.
abbrev pub no_sudo_for : Bytes → Result
no_sudo_for bin =
    fail unauthorized
      (codes "agent is not root and has no passwordless sudo for "
        ++ (bin ++ codes "; grant it in /etc/sudoers.d/croncompose to manage this connector"))
      []

abbrev pub no_systemd : Bytes → Result
no_systemd what =
    fail unsupported
      (codes "cannot "
        ++ (what
            ++ codes
                " on this host: it is not running systemd (macOS uses launchd, and containers often run no service manager at all)"))
      []

module _ (H : Host) where
  open H use {State, read, mode, create_temp, write, close, remove, exec, digest}

  abbrev exists : Bytes → State → Bool
  exists path s = elim (mode path s) [ none ↦ false | some _ ↦ true ]

  -- The first prefix with an nginx.conf in it, or the empty text.
  first_prefix : List Bytes → State → Bytes
  first_prefix [] s = []
  first_prefix (p ∷ ps) s = if exists (join p (codes "nginx.conf")) s then p else first_prefix ps s

  unfoldable pub main_config_of : Instance → State → Bytes
  unfolding first_prefix
  main_config_of inst s =
      main_config (if inst.config_prefix == [] then first_prefix prefixes s else inst.config_prefix)

  abbrev read_result : Bytes → Read → Result
  read_result path missing =
      fail failed (codes "read failed: open " ++ (path ++ codes ": no such file or directory")) []
  read_result path (unreadable e) = fail failed (codes "read failed: " ++ e) []
  read_result path (content b) = config_bytes_result digest path b

  unfoldable pub read_config : Instance → Bytes → Reply H
  read_config inst path s =
      if owns inst path then (read_result path (read path s), s) else (outside path, s)

  -- The output of a checker as a result.
  abbrev checked : Bytes → (Bytes × Option Bytes) × State → Result × State
  checked accepted ((out, none), s) = (ok_with accepted [], s)
  checked accepted ((out, some _), s) = (fail invalid (trim_output out) [], s)

  -- `nginx -t -c` on the candidate, in a temporary file that is removed afterwards.
  check_staged : Bytes → Option Bytes × State → Result × State
  check_staged tmp (some e, s) = (could_not_stage e, (close tmp s).1)
  check_staged tmp (none, s) =
      checked (codes "nginx -t accepted the candidate")
        (exec (codes "nginx") (codes "-t" ∷ codes "-c" ∷ tmp ∷ []) (close tmp s).1)

  on_staged : Bytes → Made × State → Result × State
  on_staged b (refused e, s) = (could_not_stage e, s)
  on_staged b (made tmp, s) =
      let (r, s') = check_staged tmp (write tmp b s) in (r, (remove tmp s').1)

  unfoldable pub validate_main : Bytes → Reply H
  unfolding on_staged check_staged
  validate_main b s = on_staged b (create_temp [] (codes "croncompose-nginx-*.conf") s)

  unfoldable pub validate_fragment : Bytes → Result
  validate_fragment b = elim (balanced_braces b) [
    | some e ↦ fail invalid (brace_text e) []
    | none ↦
        ok_with (codes "structure looks sane; nginx -t runs against the full tree after the write")
          []
  ]

  abbrev is_main : Instance → Bytes → State → Bool
  is_main inst path s =
      not (main_config_of inst s == []) && clean path == clean (main_config_of inst s)

  unfoldable pub validate : Instance → Bytes → Bytes → Reply H
  validate inst path b s =
      if owns inst path
      then (if is_main inst path s then validate_main b s else (validate_fragment b, s))
      else (outside path, s)

  unfoldable pub validate_live : Instance → Bytes → Reply H
  validate_live inst path s =
      checked (codes "nginx -t passed") (exec (codes "nginx") (codes "-t" ∷ []) s)

  -- What nginx's own signal says, with what systemctl said before.
  signalled : Bytes → Option (Bytes × Option Bytes) × State → Result × State
  signalled before (none, s) = (no_sudo_for (codes "systemctl or nginx"), s)
  signalled before (some (out, none), s) = (ok_with (codes "nginx reloaded") [], s)
  signalled before (some (out, some _), s) = (
    fail failed
        (codes "reload failed: "
          ++ (if before == []
              then trim_output out
              else codes "systemctl: "
                ++ (trim_output before ++ (codes "; nginx -s reload: " ++ trim_output out))))
        [],
    s,
  )

  unfoldable pub signal_nginx : Bytes → Reply H
  unfolding signalled
  signal_nginx before s =
      signalled before (priv_run H (codes "nginx") (codes "-s" ∷ codes "reload" ∷ []) s)

  after_systemctl : Option (Bytes × Option Bytes) × State → Result × State
  after_systemctl (none, s) = signal_nginx [] s
  after_systemctl (some (out, none), s) = (ok_with (codes "nginx reloaded via systemctl") [], s)
  after_systemctl (some (out, some _), s) = signal_nginx out s

  unfoldable pub activate : Instance → Bytes → Reply H
  unfolding after_systemctl signal_nginx
  activate inst path s =
      if systemd_available H s
      then after_systemctl (priv_run H (codes "systemctl") (codes "reload" ∷ codes "nginx" ∷ []) s)
      else signal_nginx [] s

  -- The step of the command, and then that of the status.
  driven : Bytes → Option (Bytes × Option Bytes) × State → Result × State
  driven action (none, s) = (no_sudo_for (codes "systemctl"), s)
  driven action (some (out, some _), s) = (
    fail failed (codes "systemctl " ++ (action ++ (codes " nginx failed: " ++ trim_output out)))
        (step (codes "systemctl " ++ (action ++ codes " nginx")) false out ∷ []),
    s,
  )
  driven action (some (out, none), s) =
      let (st, s') = service_status H (codes "nginx") s in
      (
        ok_with (codes "nginx " ++ (action ++ codes "ed")) (
            step (codes "systemctl " ++ (action ++ codes " nginx")) true out
            ∷ step (codes "status") true st
            ∷ []),
        s',
      )

  unfoldable pub lifecycle : Bytes → Reply H
  unfolding driven
  lifecycle action s =
      if valid_action action
      then (if systemd_available H s
          then driven action (priv_run H (codes "systemctl") (action ∷ codes "nginx" ∷ []) s)
          else (no_systemd (action ++ codes " nginx"), s))
      else (fail unsupported (codes "unknown action: " ++ action) [], s)

  abbrev pub nginx : Manager H
  nginx = record {
    read_config = read_config;
    validate = validate;
    validate_live = validate_live;
    activate = activate;
  }
