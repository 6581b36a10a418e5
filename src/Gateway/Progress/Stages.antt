-- ===== src/Gateway/Progress/Stages.antt =====
-- What `Snapshot` shows after `Record`: control-plane/internal/agentgw/progress.go.
use cron_compose.Prelude.{
  ℕ, bytes_eq, ◌==◌, ◌≡◌, refl, ap, ◌∙◌, Bool, true, false, not, ◌&&◌, [], Option, none, some,
  if◌then◌else◌, Bytes,
}
use cron_compose.Prelude.Text.{codes}
use cron_compose.Prelude.Map.{get, put, get-put}
use cron_compose.Prelude.Strings.{trim}
use cron_compose.Gateway.Progress.{
  Progress, Tracker, carried, record_root_error, record_stage, record_progress, shown, snapshot,
}

abbrev pub show : Bytes → Option Progress → Option Progress
show current o = elim o [ none ↦ none | some p ↦ some (shown current p) ]

-- A report with a target is what is shown of its server, with the time of the report and, if it has
-- no percentage, the last one; what is shown of other servers is as it was.
pub snapshot-record_progress :
    (server s current : Bytes) (p : Progress) (now : ℕ) (t : Tracker)
    → (server == []) ≡ false
    → (trim p.target_version == []) ≡ false
    → snapshot s current (record_progress server p now t) ≡ (
        if server == s
        then some (
            shown current
              (record p { percent = carried p.percent (get server t.by_server); updated_at = now }))
        else snapshot s current t)
unfolding snapshot record_progress record_stage
snapshot-record_progress server s current p now t named target =
    let q : Progress = record p {
      percent = carried p.percent (get server t.by_server);
      updated_at = now;
    } in
    rw (named, target)
      (ap (show current) (get-put server s q t.by_server) ∙ by_server (server == s) q)
  where
    by_server :
        (b : Bool) (q : Progress)
        → show current (if b then some q else get s t.by_server)
          ≡ (if b then some (shown current q) else show current (get s t.by_server))
    by_server true q = refl
    by_server false q = refl

-- A report without a target, as that of a failed privilege change, changes no update that is shown.
pub snapshot_without_target :
    (server s current : Bytes) (p : Progress) (now : ℕ) (t : Tracker)
    → (trim p.target_version == []) ≡ true
    → snapshot s current (record_progress server p now t) ≡ snapshot s current t
unfolding record_progress record_root_error snapshot
snapshot_without_target server s current p now t blank =
    rw blank (by_tests (server == []) ((p.phase == codes "failed") && not (trim p.detail == [])))
  where
    by_tests :
        (unnamed failed : Bool)
        → snapshot s current (
            if unnamed
            then t
            else (if failed then record t { root_err = put server p.detail t.root_err } else t))
          ≡ snapshot s current t
    by_tests true failed = refl
    by_tests false true = refl
    by_tests false false = refl
