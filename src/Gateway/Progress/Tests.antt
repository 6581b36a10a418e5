-- ===== src/Gateway/Progress/Tests.antt =====
-- Reports of an agent, and the theorems at concrete inputs.
use cron_compose.Prelude.{bytes_eq, Bytes}
use cron_compose.Prelude.Int.{pos}
use cron_compose.Prelude.Text.{codes}
use cron_compose.Gateway.Progress.{Progress}

abbrev report : Bytes → Progress
report target = record {
  target_version = target;
  phase = codes "failed";
  detail = codes "no";
  percent = pos 0;
  updated_at = 0;
}
