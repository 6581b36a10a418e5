-- ===== src/Executor/Command.antt =====
-- agent/internal/executor/command.go: the program, the arguments and the environment of a job's
-- process. Text is bytes.
use cron_compose.Prelude.{
  ℕ, bytes_eq, ◌==◌, Bool, not, ◌||◌, List, [], ◌∷◌, ◌++◌, Option, none, some, if◌then◌else◌, Bytes,
}
use cron_compose.Prelude.Int.{ℤ, is_positive, pos_part}
use cron_compose.Prelude.Map.{put}
use cron_compose.Prelude.Text.{codes, decimal}

-- `executor.Job`.
pub record Job : Type 0 where
  pub interpreter : Bytes
  pub script_body : Bytes
  pub env : List (Bytes × Bytes)
  pub working_dir : Bytes
  pub run_as_user : Bytes
  pub timeout_seconds : ℤ
  pub cpu_quota_percent : ℤ
  pub memory_max_mb : ℤ
  pub tasks_max : ℤ
  pub io_weight : ℤ

-- `osuser.Credential`, as far as the executor reads it; `vars` is `Env()` cut at the first `=`.
pub record Credential : Type 0 where
  pub username : Bytes
  pub gid : ℕ
  pub home : Bytes
  pub vars : List (Bytes × Bytes)

unfoldable pub limited : Job → Bool
limited j =
    is_positive j.cpu_quota_percent
    || is_positive j.memory_max_mb
    || is_positive j.tasks_max
    || is_positive j.io_weight

-- `-p <name>=<n><unit>`, if the limit is set.
abbrev pub property : Bytes → ℤ → Bytes → List Bytes
property name n unit =
    if is_positive n
    then codes "-p" ∷ (name ++ (b'=' ∷ (decimal (pos_part n) ++ unit))) ∷ []
    else []

abbrev pub separator : Bytes
separator = codes "--"

abbrev pub systemd_run : Bytes
systemd_run = codes "systemd-run"

unfoldable pub systemd_flags : Job → List Bytes
systemd_flags j =
    (codes "--quiet" ∷ codes "--scope" ∷ codes "--collect" ∷ [])
    ++ (property (codes "CPUQuota") j.cpu_quota_percent (codes "%")
        ++ (property (codes "MemoryMax") j.memory_max_mb (codes "M")
            ++ (property (codes "TasksMax") j.tasks_max []
                ++ property (codes "IOWeight") j.io_weight [])))

-- What follows the separator, or stands alone: the interpreter on the script.
abbrev pub script_args : Job → List Bytes
script_args j = codes "-c" ∷ j.script_body ∷ []

-- The flag is `systemdUsable()`.
unfoldable pub build_command : Bool → Bytes → Job → Bytes × List Bytes
unfolding limited systemd_flags
build_command systemd_usable interp j =
    if not (limited j)
    then (interp, script_args j)
    else if not systemd_usable
    then (interp, script_args j)
    else (systemd_run, systemd_flags j ++ (separator ∷ interp ∷ script_args j))

abbrev pub user_flags : Credential → List Bytes
user_flags cred =
    (codes "--uid=" ++ cred.username)
    ∷ (codes "--gid=" ++ decimal cred.gid)
    ∷ codes "-p"
    ∷ (codes "WorkingDirectory=" ++ cred.home)
    ∷ []

-- The arguments with `inject` in front of the first separator, or at the end.
unfoldable pub insert_before_separator : List Bytes → List Bytes → List Bytes
insert_before_separator inject [] = inject
insert_before_separator inject (a ∷ args) =
    if a == separator then inject ++ (a ∷ args) else a ∷ insert_before_separator inject args

unfoldable pub with_user : Bytes → List Bytes → Option Credential → List Bytes
unfolding insert_before_separator
with_user prog args none = args
with_user prog args (some cred) =
    if not (prog == systemd_run) then args else insert_before_separator (user_flags cred) args

unfoldable pub put_all : List (Bytes × Bytes) → List (Bytes × Bytes) → List (Bytes × Bytes)
put_all [] m = m
put_all ((k, v) ∷ kvs) m = put_all kvs (put k v m)

-- The entries whose value is not empty.
unfoldable pub set_entries : List (Bytes × Bytes) → List (Bytes × Bytes)
set_entries [] = []
set_entries ((k, v) ∷ m) = if v == [] then set_entries m else (k, v) ∷ set_entries m

abbrev pub cred_vars : Option Credential → List (Bytes × Bytes)
cred_vars none = []
cred_vars (some cred) = cred.vars

abbrev pub default_path : Bytes
default_path = codes "/usr/local/sbin:/usr/local/bin:/usr/sbin:/usr/bin:/sbin:/bin"

-- `os.Getenv` of the agent's own process, as a function.
unfoldable pub path_or_default : (Bytes → Bytes) → Bytes
path_or_default getenv = if getenv (codes "PATH") == [] then default_path else getenv (codes "PATH")

unfoldable pub base_env : (Bytes → Bytes) → List (Bytes × Bytes)
unfolding path_or_default
base_env getenv =
    (codes "PATH", path_or_default getenv)
    ∷ (codes "HOME", getenv (codes "HOME"))
    ∷ (codes "LANG", getenv (codes "LANG"))
    ∷ (codes "TZ", getenv (codes "TZ"))
    ∷ []

-- The pairs behind the `KEY=value` strings.
unfoldable pub build_env :
    (Bytes → Bytes) → List (Bytes × Bytes) → Option Credential → List (Bytes × Bytes)
unfolding base_env put_all set_entries
build_env getenv env_map cred =
    set_entries (put_all env_map (put_all (cred_vars cred) (base_env getenv)))
