-- ===== src/Executor/Tests.antt =====
-- Runs of the executor model, and its theorems at concrete inputs.
use cron_compose.Prelude.{
  bytes_eq, ◌≡◌, refl, true, false, [], ◌∷◌, ◌++◌, none, some, length, Bytes,
}
use cron_compose.Prelude.Int.{pos}
use cron_compose.Prelude.Map.{get}
use cron_compose.Prelude.Text.{codes, decimal}
use cron_compose.Executor.Command.{
  Job, Credential, cred_vars, limited, separator, systemd_run, script_args, build_command,
  user_flags, with_user, base_env, build_env,
}
use cron_compose.Executor.Arguments.{limits_of, asking, scope, with_user-build_command}
use cron_compose.Executor.Environment.{first_of_two, unless_empty, get-build_env}
use cron_compose.Executor.Outcome.{seqs, count_up, run-CountsFrom, run_succeeded}
use cron_compose.Executor.{Host, succeeded, stdout, stderr, clean, run}

abbrev backup : Job
backup = record {
  interpreter = [];
  script_body = codes "--";
  env = (codes "PATH", codes "/opt/bin") ∷ (codes "TZ", []) ∷ [];
  working_dir = [];
  run_as_user = codes "deploy";
  timeout_seconds = pos 0;
  cpu_quota_percent = pos 50;
  memory_max_mb = pos 0;
  tasks_max = pos 0;
  io_weight = pos 0;
}

abbrev deploy : Credential
deploy = record {
  username = codes "deploy";
  gid = 1000;
  home = codes "/home/deploy";
  vars = (codes "HOME", codes "/home/deploy") ∷ [];
}

abbrev container : Host
container = record {
  user = some (some deploy);
  user_error = [];
  systemd_usable = false;
  start_error = none;
  lines = (stderr, codes "warn") ∷ (stdout, codes "ok") ∷ (stderr, codes "warn") ∷ [];
  deadline = false;
  canceled = false;
  wait = clean;
}

decimal_1000 : decimal 1000 ≡ codes "1000"
unfolding decimal
decimal_1000 = refl

backup_numbers : seqs stderr (run container backup).0 ≡ 0 ∷ 1 ∷ 2 ∷ []
unfolding run seqs
backup_numbers = refl

with_user-build_command_example :
    let (prog, args) = build_command true (codes "bash") backup in
    (prog ≡ systemd_run)
    × (with_user prog args (some deploy)
        ≡ scope
          ++ (asking (limits_of backup)
              ++ (user_flags deploy ++ (separator ∷ codes "bash" ∷ script_args backup))))
unfolding limited
with_user-build_command_example = with_user-build_command (codes "bash") backup deploy refl

abbrev getenv : Bytes → Bytes
getenv k = codes "UTC"

get-build_env_example :
    get (codes "TZ") (build_env getenv backup.env (some deploy))
    ≡ unless_empty (
        first_of_two (get (codes "TZ") backup.env) (
          first_of_two
            (get (codes "TZ") (cred_vars (some deploy)))
            (get (codes "TZ") (base_env getenv))))
unfolding get
get-build_env_example =
    get-build_env getenv backup.env (some deploy) (codes "TZ") (refl, (refl, tt)) (refl, tt)

run-CountsFrom_example :
    seqs stderr (run container backup).0
    ≡ count_up 0 (length (seqs stderr (run container backup).0))
run-CountsFrom_example = run-CountsFrom stderr container backup

run_succeeded_example : (run container backup).1.status ≡ succeeded
run_succeeded_example = (run_succeeded container backup).1 (((λ e. cc), refl), refl, refl, refl)
