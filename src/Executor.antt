-- ===== src/Executor.antt =====
-- agent/internal/executor/executor.go: one execution of a job. What the host does (the user lookup,
-- whether systemd-run works, the output lines in the order in which the two pumps hand them to the
-- sink, and how the process ends) is an argument; the clock is not modelled, and `DurationMs` is
-- left out. A line longer than the scanner's buffer, which ends its pump early, is outside the model.
pub mod Command
pub mod Arguments
pub mod Environment
pub mod Outcome
mod Tests
use cron_compose.Prelude.{
  ℕ, suc, ◌+◌, bytes_eq, ◌==◌, Bool, true, false, not, ◌&&◌, List, [], ◌∷◌, ◌++◌, Option, none,
  some, if◌then◌else◌, Bytes, length,
}
use cron_compose.Prelude.Int.{ℤ, pos, neg}
use cron_compose.Prelude.Text.{codes}
use Command.{Job, Credential, limited, systemd_run, build_command, with_user}

pub data Status : Type 0 where
  succeeded failed timed_out canceled : Status

pub data Stream : Type 0 where
  stdout stderr : Stream

-- One call of the log sink.
pub record Chunk : Type 0 where
  pub stream : Stream
  pub seq : ℕ
  pub content : Bytes

pub record Result : Type 0 where
  pub status : Status
  pub exit_code : ℤ
  pub err : Bytes
  pub notes : List Bytes

-- What `cmd.Wait` returned: nil, an exit code, a signal with its name, or another error.
pub data Wait : Type 0 where
  clean : Wait
  exited : ℕ → Bytes → Wait
  signaled : ℕ → Bytes → Wait
  broken : Bytes → Wait

-- How one execution goes on the host. `deadline` and `canceled` are the states of the two contexts
-- when the process has ended; `start_error` is the error of `cmd.Start` as `startError` words it.
pub record Host : Type 0 where
  pub user : Option (Option Credential)
  pub user_error : Bytes
  pub systemd_usable : Bool
  pub start_error : Option Bytes
  pub lines : List (Stream × Bytes)
  pub deadline : Bool
  pub canceled : Bool
  pub wait : Wait

-- `sink("stderr", i, ...)` for each note.
unfoldable pub note_chunks : ℕ → List Bytes → List Chunk
note_chunks i [] = []
note_chunks i (n ∷ notes) =
    record { stream = stderr; seq = i; content = codes "croncompose: " ++ n }
    ∷ note_chunks (i + 1) notes

-- The two pumps, each with the number of its next line.
unfoldable pub pump_lines : ℕ → ℕ → List (Stream × Bytes) → List Chunk
pump_lines out err [] = []
pump_lines out err ((stdout, line) ∷ lines) =
    record { stream = stdout; seq = out; content = line } ∷ pump_lines (out + 1) err lines
pump_lines out err ((stderr, line) ∷ lines) =
    record { stream = stderr; seq = err; content = line } ∷ pump_lines out (err + 1) lines

abbrev pub unlimited_note : Bytes
unlimited_note =
    codes "resource limits requested but systemd-run is not available; running unlimited"

abbrev interpreter_of : Job → Bytes
interpreter_of j = if j.interpreter == [] then codes "bash" else j.interpreter

unfoldable pub notes_of : Host → Job → List Bytes
unfolding build_command
notes_of h j =
    if limited j && not ((build_command h.systemd_usable (interpreter_of j) j).0 == systemd_run)
    then unlimited_note ∷ []
    else []

wait_result : Wait → List Bytes → Result
wait_result clean notes = record { status = succeeded; exit_code = pos 0; err = []; notes = notes }
wait_result (exited code e) notes = record {
  status = failed;
  exit_code = pos code;
  err = e;
  notes = notes;
}
wait_result (signaled sig e) notes = record {
  status = failed;
  exit_code = neg sig;
  err = e;
  notes = notes;
}
wait_result (broken e) notes = record { status = failed; exit_code = pos 0; err = e; notes = notes }

unfoldable pub result_of : Host → List Bytes → Result
unfolding wait_result
result_of h notes =
    if h.deadline
    then record {
      status = timed_out;
      exit_code = pos 0;
      err = codes "timeout exceeded";
      notes = notes;
    }
    else (if h.canceled
        then record { status = canceled; exit_code = pos 0; err = codes "canceled"; notes = notes }
        else wait_result h.wait notes)

run_process : Host → List Bytes → List Chunk × Result
unfolding note_chunks pump_lines result_of
run_process h notes = elim h.start_error [
  | some e ↦
      (note_chunks 0 notes, record { status = failed; exit_code = pos 0; err = e; notes = notes })
  | none ↦ (note_chunks 0 notes ++ pump_lines 0 (length notes) h.lines, result_of h notes)
]

-- The calls of the sink, and the result.
unfoldable pub run : Host → Job → List Chunk × Result
unfolding run_process notes_of
run h j = elim h.user [
  | none ↦ (
    [],
    record {
      status = failed;
      exit_code = pos 0;
      err = codes "run_as_user: " ++ h.user_error;
      notes = [];
    },
  )
  | some cred ↦ run_process h (notes_of h j)
]
