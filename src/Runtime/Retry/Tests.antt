-- ===== src/Runtime/Retry/Tests.antt =====
-- Runs of the retry loop, and its theorems at concrete inputs.
use cron_compose.Prelude.{
  ℕ, ◌≤◌, ◌≡◌, ◌≢◌, refl, Bool, true, false, List, [], ◌∷◌, Option, none, some, if◌then◌else◌, ltb,
  arith, length,
}
use cron_compose.Prelude.Int.{pos}
use cron_compose.Prelude.Text.{codes}
use cron_compose.Executor.Command.{Job}
use cron_compose.Executor.Outcome.{seqs}
use cron_compose.Executor.{Host, Chunk, Result, stdout, stderr, clean, exited, run}
use cron_compose.Runtime.Retry.{to_int32, attempt_chunks, run_with_retries}
use cron_compose.Runtime.Retry.Attempts.{Attempts, run_with_retries-Attempts}
use cron_compose.Runtime.Retry.Numbers.{retry_stderr_collides}

abbrev job : Job
job = record {
  interpreter = codes "sh";
  script_body = codes "make";
  env = [];
  working_dir = [];
  run_as_user = [];
  timeout_seconds = pos 0;
  cpu_quota_percent = pos 0;
  memory_max_mb = pos 0;
  tasks_max = pos 0;
  io_weight = pos 0;
}

-- The first attempt fails and the second one succeeds; each writes one line on each stream.
abbrev flaky : ℕ → Host
flaky i = record {
  user = some none;
  user_error = [];
  systemd_usable = true;
  start_error = none;
  lines = (stdout, codes "building") ∷ (stderr, codes "warning") ∷ [];
  deadline = false;
  canceled = false;
  wait = if ltb i 1 then exited 2 (codes "exit status 2") else clean;
}

abbrev never : ℕ → Bool
never i = false

seqs_of : Option (List Chunk × Result) → List ℕ
seqs_of none = []
seqs_of (some (cs, r)) = seqs stderr cs

flaky_numbers : seqs_of (run_with_retries flaky never job 3) ≡ 0 ∷ 1000000 ∷ 1000000 ∷ []
unfolding seqs_of run_with_retries attempt_chunks run seqs
flaky_numbers = refl

run_with_retries-Attempts_example :
    Attempts flaky never job 3 0 (run_with_retries flaky never job 3)
run_with_retries-Attempts_example = run_with_retries-Attempts flaky never job 3

few_lines : (i : ℕ) → length (seqs stdout (run (flaky i) job).0) ≤ 1000000
unfolding run seqs
few_lines i = omega arith

abbrev flaky_chunks : List Chunk
flaky_chunks =
    record { stream = stdout; seq = 0; content = codes "building" }
    ∷ record { stream = stderr; seq = 0; content = codes "warning" }
    ∷ record { stream = stderr; seq = 1000000; content = codes "croncompose: retry 1 of 3" }
    ∷ record { stream = stdout; seq = 1000000; content = codes "building" }
    ∷ record { stream = stderr; seq = 1000000; content = codes "warning" }
    ∷ []

stderr_ne_nil : seqs stderr (run (flaky 1) job).0 ≢ []
unfolding run seqs
stderr_ne_nil e = cc

retry_stderr_collides_example :
    (rest : List ℕ) × (seqs stderr (attempt_chunks flaky never job 3 1 1000000)
      ≡ to_int32 1000000 ∷ to_int32 1000000 ∷ rest)
retry_stderr_collides_example = retry_stderr_collides flaky never job 3 0 1000000 stderr_ne_nil
