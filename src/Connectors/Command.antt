-- ===== src/Connectors/Command.antt =====
-- command.go and provider.go of agent/internal/connectors: commands, results, and the interface of the
-- providers whose configuration can be edited.
use cron_compose.Prelude.{Bool, true, false, not, ◌||◌, List, [], ◌++◌, Bytes, bytes_eq, ◌==◌}
use cron_compose.Prelude.Text.{codes}
use cron_compose.Connectors.Host.{Host}
use cron_compose.Connectors.Privilege.{trim_output}

pub record Command : Type 0 where
  pub op : Bytes
  pub kind : Bytes
  pub instance_name : Bytes
  pub ref : Bytes
  pub action : Bytes
  pub content : Bytes
  pub base_checksum : Bytes
  pub dry_run : Bool

pub record Step : Type 0 where
  pub name : Bytes
  pub ok : Bool
  pub output : Bytes

pub data Status : Type 0 where
  succeeded failed invalid unauthorized unsupported : Status

pub record Result : Type 0 where
  pub status : Status
  pub message : Bytes
  pub content : Bytes
  pub checksum : Bytes
  pub steps : List Step

abbrev pub is_success : Status → Bool
is_success succeeded = true
is_success failed = false
is_success invalid = false
is_success unauthorized = false
is_success unsupported = false

-- `Result.Failed`.
abbrev pub is_failed : Result → Bool
is_failed r = not (is_success r.status)

abbrev pub step : Bytes → Bool → Bytes → Step
step name ok output = record { name = name; ok = ok; output = trim_output output }

-- `fail`, and `ok` with the status of success.
abbrev pub fail : Status → Bytes → List Step → Result
fail status message steps = record {
  status = status;
  message = message;
  content = [];
  checksum = [];
  steps = steps;
}

abbrev pub ok_with : Bytes → List Step → Result
ok_with message steps = fail succeeded message steps

abbrev pub config_bytes_result : (Bytes → Bytes) → Bytes → Bytes → Result
config_bytes_result digest path b = record {
  status = succeeded;
  message = codes "read " ++ path;
  content = b;
  checksum = digest b;
  steps = [];
}

-- `allowedActions`.
unfoldable pub valid_action : Bytes → Bool
valid_action a =
    a == codes "start"
    || a == codes "stop"
    || a == codes "restart"
    || a == codes "reload"
    || a == codes "enable"
    || a == codes "disable"
    || a == codes "pause"
    || a == codes "unpause"
    || a == codes "save"
    || a == codes "startup"
    || a == codes "delete"
    || a == codes "flush"

pub record Capabilities : Type 0 where
  pub can_lifecycle : Bool
  pub can_edit : Bool

-- The fields of `Instance` that commands read; `config_prefix` is `Detail["config_prefix"]`.
pub record Instance : Type 0 where
  pub kind : Bytes
  pub instance_name : Bytes
  pub config_paths : List Bytes
  pub caps : Capabilities
  pub config_prefix : Bytes

module _ (H : Host) where
  abbrev pub Reply : Type 0
  Reply = H.State → Result × H.State

  -- `ConfigManager`.
  pub record Manager : Type 0 where
    pub read_config : Instance → Bytes → Reply
    pub validate : Instance → Bytes → Bytes → Reply
    pub validate_live : Instance → Bytes → Reply
    pub activate : Instance → Bytes → Reply
