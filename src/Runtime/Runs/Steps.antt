-- ===== src/Runtime/Runs/Steps.antt =====
-- The steps of the goroutines of `executeRun` in agent/internal/runtime/runs.go, in any interleaving.
use Prim.Native.String.{String}
use cron_compose.Prelude.{
  ℕ, string_eq, ◌==◌, ◌≡◌, Bool, true, false, ◌&&◌, List, [], ◌∷◌, ◌++◌, none, some, if◌then◌else◌,
}
use cron_compose.Prelude.Int.{pos_part}
use cron_compose.Prelude.Map.{get, put, del}
use cron_compose.Executor.{Chunk, Result, Host}
use cron_compose.Store.{JobDef}
use cron_compose.Runtime.Retry.{run_with_retries}
use cron_compose.Runtime.Runs.{
  Message, run_started, log_chunk, run_finished, waiting, admitted, tracked, running, finished,
  released, Thread, Runs, without_slot, with_slot, refused, blocked, admit, free_slot, track_run,
  release_run, cancel_run, job_of,
}

-- The run of a message.
abbrev pub run_of : Message → String
run_of (run_started run job version trigger) = run
run_of (log_chunk run c) = run
run_of (run_finished run r) = run

-- The messages that one run has handed over, in their order.
unfoldable pub own : String → List (Message × Bool) → List Message
own run [] = []
own run ((m, kept) ∷ calls) = let rest = own run calls in if run_of m == run then m ∷ rest else rest

-- Those of them that are in the outbox: a message that `Enqueue` refuses is logged and dropped.
unfoldable pub accepted : String → List (Message × Bool) → List Message
accepted run [] = []
accepted run ((m, kept) ∷ calls) =
    let rest = accepted run calls in if run_of m == run && kept then m ∷ rest else rest

-- A run id that no goroutine has and no message carries: a fresh ULID, or the new id of a manual run.
abbrev pub Fresh : String → Runs → Type 0
Fresh run s = (get run s.threads ≡ none) × (own run s.calls ≡ [])

abbrev pub enter : String → Thread → Runs → Runs
enter run t s = record s { threads = put run t s.threads }

-- `queue`, with whether `Enqueue` returns nil.
abbrev pub send : Message → Bool → Runs → Runs
send m kept s = record s { calls = s.calls ++ (m, kept) ∷ [] }

-- One step of one goroutine, or the arrival of a run or of a cancellation. `executeRun` of a job that
-- is not there, and one that `admit` refuses, leave at most a gate behind.
pub data Step (s : Runs) : Runs → Type 0 where
  arrive_free :
      (run job trigger : String) (def : JobDef)
      → Fresh run s
      → admit def.concurrency_policy job s.gates ≡ without_slot
      → Step s (
          enter run
            (record { job_id = job; def = def; trigger = trigger; holds = false; phase = admitted })
            s)
  arrive_slot :
      (run job trigger : String) (def : JobDef) (gates : List (String × Bool))
      → Fresh run s
      → admit def.concurrency_policy job s.gates ≡ with_slot gates
      → Step s (
          enter run
            (record { job_id = job; def = def; trigger = trigger; holds = true; phase = admitted })
            (record s { gates = gates }))
  arrive_refused :
      (run job trigger : String) (def : JobDef) (gates : List (String × Bool))
      → admit def.concurrency_policy job s.gates ≡ refused gates
      → Step s (record s { gates = gates })
  arrive_blocked :
      (run job trigger : String) (def : JobDef) (gates : List (String × Bool))
      → Fresh run s
      → admit def.concurrency_policy job s.gates ≡ blocked gates
      → Step s (
          enter run
            (record { job_id = job; def = def; trigger = trigger; holds = false; phase = waiting })
            (record s { gates = gates }))
  take_slot :
      (run : String) (t : Thread) (gates : List (String × Bool))
      → get run s.threads ≡ some t
      → t.phase ≡ waiting
      → admit "queue" t.job_id s.gates ≡ with_slot gates
      → Step s
          (enter run (record t { holds = true; phase = admitted }) (record s { gates = gates }))
  -- The context ended while the run waited for the slot.
  give_up :
      (run : String) (t : Thread)
      → get run s.threads ≡ some t
      → t.phase ≡ waiting
      → Step s (record s { threads = del run s.threads })
  track :
      (run : String) (t : Thread)
      → get run s.threads ≡ some t
      → t.phase ≡ admitted
      → Step s (enter run (record t { phase = tracked }) (track_run run t.job_id s))
  -- `RunStarted` is handed to `queue`; what the attempts will write is settled by the host.
  begin :
      (run : String) (t : Thread) (kept : Bool) (hosts : ℕ → Host) (stopped : ℕ → Bool)
      (out : List Chunk) (r : Result)
      → get run s.threads ≡ some t
      → t.phase ≡ tracked
      → run_with_retries hosts stopped (job_of t.def) (pos_part t.def.max_retries) ≡ some (out, r)
      → Step s (
          enter run
            (record t { phase = running [] out r })
            (send (run_started run t.job_id t.def.version_id t.trigger) kept s))
  output :
      (run : String) (t : Thread) (kept : Bool) (sent rest : List Chunk) (c : Chunk) (r : Result)
      → get run s.threads ≡ some t
      → t.phase ≡ running sent (c ∷ rest) r
      → Step s (
          enter run
            (record t { phase = running (sent ++ c ∷ []) rest r })
            (send (log_chunk run c) kept s))
  finish :
      (run : String) (t : Thread) (kept : Bool) (sent : List Chunk) (r : Result)
      → get run s.threads ≡ some t
      → t.phase ≡ running sent [] r
      → Step s (enter run (record t { phase = finished sent r }) (send (run_finished run r) kept s))
  -- The deferred calls, last one first.
  untrack :
      (run : String) (t : Thread) (sent : List Chunk) (r : Result)
      → get run s.threads ≡ some t
      → t.phase ≡ finished sent r
      → Step s (enter run (record t { phase = released sent r }) (release_run run t.job_id s))
  leave :
      (run : String) (t : Thread) (sent : List Chunk) (r : Result)
      → get run s.threads ≡ some t
      → t.phase ≡ released sent r
      → Step s
          (record s { gates = free_slot t.holds t.job_id s.gates; threads = del run s.threads })
  cancel : (run : String) → Step s (cancel_run run s)

-- The runtime as `New` makes it.
abbrev pub no_runs : Runs
no_runs = record { gates = []; run_index = []; job_busy = []; calls = []; threads = [] }

pub data Reachable : Runs → Type 0 where
  start : Reachable no_runs
  next : {s t : Runs} → Reachable s → Step s t → Reachable t
