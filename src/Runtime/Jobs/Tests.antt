-- ===== src/Runtime/Jobs/Tests.antt =====
-- A sync over a cron library and a data directory in memory, and the theorems at concrete inputs.
use cron_compose.Prelude.{string_eq, ◌≡◌, refl, true, false, [], ◌∷◌, some}
use cron_compose.Prelude.Int.{pos}
use cron_compose.Prelude.Map.{get, put, del}
use cron_compose.Scheduler.Sync.{empty-IsConsistent}
use cron_compose.Scheduler.Memory as Cron
use cron_compose.Store.Memory as Dir
use cron_compose.Store.Encoding.{json, nightly, encode}
use cron_compose.Store.{save_jobs}
use cron_compose.Runtime.Messages.{JobDefMsg, SyncJobs}
use cron_compose.Runtime.Jobs.Merge.{IsJobSet}
use cron_compose.Runtime.Jobs.Sync.{Synced, apply_sync-Synced}
use cron_compose.Runtime.Jobs.Restart.{started, Restored, sync-Restored}
use cron_compose.Runtime.Jobs.{
  Agent, apply_sync, merge, values, upsert_all, delete_all, proto_to_store,
}

abbrev nightly_msg : JobDefMsg
nightly_msg = record {
  id = "a";
  version_id = "";
  name = "";
  interpreter = [];
  script_body = [];
  schedule_cron = "0 3 * * *";
  timezone = "UTC";
  enabled = true;
  timeout_seconds = pos 0;
  concurrency_policy = "";
  catchup_policy = "";
  max_retries = pos 0;
  working_dir = [];
  run_as_user = [];
  env = [];
  secrets = [];
  cpu_quota_percent = pos 0;
  memory_max_mb = pos 0;
  tasks_max = pos 0;
  io_weight = pos 0;
}

abbrev first_sync : SyncJobs
first_sync = record {
  full_snapshot = true;
  upsert = nightly_msg ∷ [];
  delete = "b" ∷ [];
  cursor = 7;
}

-- An agent that has a job "b" which the snapshot drops.
abbrev before : Agent Cron.memory Dir.memory json
before = record (started Cron.memory Dir.memory json (false, [])) {
  jobs = ("b", record nightly { id = "b" }) ∷ [];
}

before-IsJobSet : IsJobSet before.jobs
unfolding get
before-IsJobSet = record { keyed = (refl, tt); distinct = (refl, tt) }

merge-first_sync : merge first_sync before.jobs ≡ ("a", nightly) ∷ []
unfolding merge upsert_all delete_all proto_to_store put del
merge-first_sync = refl

save-first_sync :
    (save_jobs Dir.memory json (values (merge first_sync before.jobs)) (false, [])).1 ≡ true
unfolding merge upsert_all delete_all proto_to_store put del values save_jobs encode Dir.write
    Dir.rename get
save-first_sync = refl

apply_sync-Synced_example :
    (a' : Agent Cron.memory Dir.memory json) × (apply_sync Cron.memory Dir.memory json true
        first_sync before
      ≡ some a')
    × Synced Cron.memory Dir.memory json true first_sync before a'
apply_sync-Synced_example =
    apply_sync-Synced Cron.memory Dir.memory json true first_sync before before-IsJobSet
      (empty-IsConsistent Cron.memory)

sync-Restored_example :
    (a' : Agent Cron.memory Dir.memory json) × (apply_sync Cron.memory Dir.memory json true
        first_sync before
      ≡ some a')
    × Restored Cron.memory Dir.memory json a'.jobs a'.disk
sync-Restored_example =
    sync-Restored Cron.memory Dir.memory json true first_sync before before-IsJobSet
      (empty-IsConsistent Cron.memory) save-first_sync
