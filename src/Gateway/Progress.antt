-- ===== src/Gateway/Progress.antt =====
-- control-plane/internal/agentgw/progress.go: the stages of agent updates. Text is code points, the time
-- of a record is an argument, and the tracker is not nil.
pub mod Stages
mod Tests
use cron_compose.Prelude.{
  ℕ, zero, suc, bytes_eq, ◌==◌, Bool, true, false, not, ◌&&◌, List, [], ◌∷◌, Option, none, some,
  if◌then◌else◌, Bytes,
}
use cron_compose.Prelude.Int.{ℤ, pos, negsuc}
use cron_compose.Prelude.Text.{codes}
use cron_compose.Prelude.Map.{get, put, del}
use cron_compose.Prelude.Strings.{trim}
use cron_compose.Gateway.Versions.{versions_equal}

-- `AgentUpdateProgress`.
pub record Progress : Type 0 where
  pub target_version : Bytes
  pub phase : Bytes
  pub detail : Bytes
  pub percent : ℤ
  pub updated_at : ℕ

pub record Tracker : Type 0 where
  pub by_server : List (Bytes × Progress)
  pub root_err : List (Bytes × Bytes)

abbrev pub new_tracker : Tracker
new_tracker = record { by_server = []; root_err = [] }

-- A stage without a percentage keeps the last one.
abbrev pub carried : ℤ → Option Progress → ℤ
carried (pos zero) (some prev) = prev.percent
carried percent _ = percent

record_root_error : Bytes → Progress → Tracker → Tracker
record_root_error server p t =
    if (p.phase == codes "failed") && not (trim p.detail == [])
    then record t { root_err = put server p.detail t.root_err }
    else t

record_stage : Bytes → Progress → ℕ → Tracker → Tracker
record_stage server p now t = record t {
  by_server =
      put server
        (record p { percent = carried p.percent (get server t.by_server); updated_at = now })
        t.by_server;
}

unfoldable pub record_progress : Bytes → Progress → ℕ → Tracker → Tracker
unfolding record_root_error record_stage
record_progress server p now t =
    if server == []
    then t
    else (if trim p.target_version == []
        then record_root_error server p t
        else record_stage server p now t)

unfoldable pub offer : Bytes → Bytes → ℕ → Tracker → Tracker
offer server target now t =
    record_progress server
      (record {
        target_version = target;
        phase = codes "offered";
        detail = codes "Sending the update command to the agent";
        percent = pos 5;
        updated_at = 0;
      })
      now t

-- The stage as it is shown: done, if the agent is back on the target.
unfoldable pub shown : Bytes → Progress → Progress
shown current p =
    if not (p.phase == codes "failed") && versions_equal current p.target_version
    then record p { phase = codes "done"; detail = codes "Update complete"; percent = pos 100 }
    else p

unfoldable pub snapshot : Bytes → Bytes → Tracker → Option Progress
snapshot server current t = elim (get server t.by_server) [
  | none ↦ none
  | some p ↦ some (shown current p)
]

unfoldable pub agent_root_error : Bytes → Tracker → Bytes
agent_root_error server t = elim (get server t.root_err) [ none ↦ [] | some e ↦ e ]

unfoldable pub clear_root_error : Bytes → Tracker → Tracker
clear_root_error server t =
    if server == [] then t else record t { root_err = del server t.root_err }

unfoldable pub reconcile_root_error : Bytes → Bool → Bool → Tracker → Tracker
unfolding clear_root_error
reconcile_root_error server true true t = clear_root_error server t
reconcile_root_error server false false t = clear_root_error server t
reconcile_root_error server enabled euid_root t = t

unfoldable pub clear : Bytes → Tracker → Tracker
clear server t = record t { by_server = del server t.by_server }
