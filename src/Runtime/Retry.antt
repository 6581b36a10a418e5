-- ===== src/Runtime/Retry.antt =====
-- `runWithRetries` of agent/internal/runtime/runs.go. The host of each attempt, and whether the
-- context ends in the pause after it, are arguments. `maxRetries` counts as 0 where it is negative,
-- which the loop treats alike. A sequence number is the bit pattern of the `int32` on the wire.
pub mod Attempts
pub mod Numbers
mod Tests
use cron_compose.Prelude.{
  ℕ, zero, suc, ◌+◌, ◌*◌, ◌%◌, ◌^◌, Bool, true, false, ◌||◌, List, [], ◌∷◌, ◌++◌, map, Option, none,
  some, if◌then◌else◌, Bytes, leb, ltb,
}
use cron_compose.Prelude.Text.{codes, decimal}
use cron_compose.Executor.Command.{Job}
use cron_compose.Executor.{
  Status, succeeded, failed, timed_out, canceled, Stream, stderr, Chunk, Result, Host, run,
}

abbrev pub seq_block : ℕ
seq_block = 1000000

abbrev pub to_int32 : ℕ → ℕ
to_int32 n = n % 2 ^ 32

-- The line that announces a retry, for the attempts after the first.
unfoldable pub notice : ℕ → ℕ → List Chunk
notice attempt max_retries =
    if ltb 0 attempt
    then record {
      stream = stderr;
      seq = 0;
      content =
          codes "croncompose: retry " ++ (decimal attempt ++ (codes " of " ++ decimal max_retries));
    }
      ∷ []
    else []

-- The sink of an attempt shifts the numbers by its base.
abbrev pub at_base : ℕ → Chunk → Chunk
at_base base c = record c { seq = to_int32 (base + c.seq) }

abbrev is_final : Status → Bool
is_final succeeded = true
is_final timed_out = true
is_final canceled = true
is_final failed = false

module _ (hosts : ℕ → Host) (stopped : ℕ → Bool) (job : Job) (max_retries : ℕ) where
  unfoldable pub attempt_chunks : ℕ → ℕ → List Chunk
  unfolding notice
  attempt_chunks attempt base =
      map (at_base base) (notice attempt max_retries ++ (run (hosts attempt) job).0)

  abbrev pub attempt_result : ℕ → Result
  attempt_result attempt = (run (hosts attempt) job).1

  put_before : List Chunk → Option (List Chunk × Result) → Option (List Chunk × Result)
  put_before out none = none
  put_before out (some (rest, r)) = some (out ++ rest, r)

  -- The loop from this attempt and this offset on; `none` if the fuel ran out.
  unfoldable pub retry_loop : ℕ → ℕ → ℕ → Option (List Chunk × Result)
  unfolding put_before
  retry_loop zero attempt offset = none
  retry_loop (suc fuel) attempt offset =
      let rest = retry_loop fuel (attempt + 1) (offset + seq_block) in
      let out = attempt_chunks attempt offset in
      let r = attempt_result attempt in
      if is_final r.status || leb max_retries attempt
      then some (out, r)
      else (if stopped attempt then some (out, r) else put_before out rest)

  -- The log chunks that were queued, and the result. The loop takes one attempt more than there are
  -- retries at most.
  unfoldable pub run_with_retries : Option (List Chunk × Result)
  unfolding retry_loop
  run_with_retries = retry_loop (max_retries + 1) 0 0
