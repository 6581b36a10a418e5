-- ===== src/Runtime/Runs/Story.antt =====
-- What one run of agent/internal/runtime/runs.go hands to `queue`, by the phase of its goroutine.
use Prim.Native.String.{String}
use cron_compose.Prelude.{
  ℕ, string_eq, ◌==◌, ◌≡◌, refl, sym, ap, subst, Bool, List, [], ◌∷◌, ◌++◌, some, if◌then◌else◌,
  arith, map, append-nil, append_assoc,
}
use cron_compose.Prelude.Int.{pos_part}
use cron_compose.Executor.{Chunk, Result, Host}
use cron_compose.Store.{JobDef}
use cron_compose.Runtime.Retry.{run_with_retries}
use cron_compose.Runtime.Runs.Steps.{own, run_of}
use cron_compose.Runtime.Runs.{
  Message, run_started, log_chunk, run_finished, Phase, waiting, admitted, tracked, running,
  finished, released, job_of,
}

-- The attempts of a run of this definition wrote these chunks and came to this result.
pub record Executes (def : JobDef) (out : List Chunk) (r : Result) : Type 0 where
  pub hosts : ℕ → Host
  pub stopped : ℕ → Bool
  pub returns :
      run_with_retries hosts stopped (job_of def) (pos_part def.max_retries) ≡ some (out, r)

abbrev pub chunks : String → List Chunk → List Message
chunks run cs = map (log_chunk run) cs

abbrev pub opening : String → String → JobDef → String → Message
opening run job def trigger = run_started run job def.version_id trigger

-- What a goroutine of a run has handed over.
pub data Told (run job : String) (def : JobDef) (trigger : String)
    : Phase → List Message → Type 0 where
  before_waiting : Told run job def trigger waiting []
  before_admitted : Told run job def trigger admitted []
  before_tracked : Told run job def trigger tracked []
  during :
      (sent rest : List Chunk) (r : Result)
      → Executes def (sent ++ rest) r
      → Told run job def trigger
          (running sent rest r)
          (opening run job def trigger ∷ chunks run sent)
  after_finish :
      (sent : List Chunk) (r : Result)
      → Executes def sent r
      → Told run job def trigger
          (finished sent r)
          (opening run job def trigger ∷ chunks run sent ++ run_finished run r ∷ [])
  after_release :
      (sent : List Chunk) (r : Result)
      → Executes def sent r
      → Told run job def trigger
          (released sent r)
          (opening run job def trigger ∷ chunks run sent ++ run_finished run r ∷ [])

-- The messages of a run: none; or its start and the first chunks of its attempts; or its start, all
-- the chunks of its attempts in their order, and its end with their result.
pub data IsLog (run : String) (ms : List Message) : Type 0 where
  silent : ms ≡ [] → IsLog run ms
  open_log :
      (job : String) (def : JobDef) (trigger : String) (sent rest : List Chunk) (r : Result)
      → Executes def (sent ++ rest) r
      → ms ≡ opening run job def trigger ∷ chunks run sent
      → IsLog run ms
  closed_log :
      (job : String) (def : JobDef) (trigger : String) (sent : List Chunk) (r : Result)
      → Executes def sent r
      → ms ≡ opening run job def trigger ∷ chunks run sent ++ run_finished run r ∷ []
      → IsLog run ms

pub own-append :
    (run : String) (m : Message) (kept : Bool) (calls : List (Message × Bool))
    → own run (calls ++ (m, kept) ∷ [])
      ≡ (if run_of m == run then own run calls ++ m ∷ [] else own run calls)
unfolding own
own-append run m kept [] = ground arith
own-append run m kept ((x, k) ∷ calls) = ground (arith, own-append run m kept calls)

pub chunks-append :
    (run : String) (c : Chunk) (cs : List Chunk)
    → chunks run (cs ++ c ∷ []) ≡ chunks run cs ++ log_chunk run c ∷ []
chunks-append run c [] = refl
chunks-append run c (x ∷ cs) = ap (λ ms. log_chunk run x ∷ ms) (chunks-append run c cs)

pub Told-IsLog :
    {run job trigger : String} {def : JobDef} {p : Phase} {ms : List Message}
    → Told run job def trigger p ms
    → IsLog run ms
Told-IsLog before_waiting = silent refl
Told-IsLog before_admitted = silent refl
Told-IsLog before_tracked = silent refl
Told-IsLog {run} {job} {trigger} {def} (during sent rest r x) =
    open_log job def trigger sent rest r x refl
Told-IsLog {run} {job} {trigger} {def} (after_finish sent r x) =
    closed_log job def trigger sent r x refl
Told-IsLog {run} {job} {trigger} {def} (after_release sent r x) =
    closed_log job def trigger sent r x refl

module _ {run job trigger : String} {def : JobDef} where
  pub Told-begin :
      {ms : List Message} {out : List Chunk} {r : Result}
      → Executes def out r
      → Told run job def trigger tracked ms
      → Told run job def trigger (running [] out r) (ms ++ opening run job def trigger ∷ [])
  Told-begin {ms} {out} {r} x before_tracked = during [] out r x

  pub Told-output :
      {ms : List Message} {sent rest : List Chunk} {c : Chunk} {r : Result}
      → Told run job def trigger (running sent (c ∷ rest) r) ms
      → Told run job def trigger (running (sent ++ c ∷ []) rest r) (ms ++ log_chunk run c ∷ [])
  Told-output {ms} {sent} {rest} {c} {r} (during _ _ _ x) =
      subst
        (λ cs.
          Told run job def trigger (running (sent ++ c ∷ []) rest r)
            (opening run job def trigger ∷ cs))
        (chunks-append run c sent)
        (during (sent ++ c ∷ []) rest r
          (subst (λ cs. Executes def cs r) (sym (append_assoc sent (c ∷ []) rest)) x))

  pub Told-finish :
      {ms : List Message} {sent : List Chunk} {r : Result}
      → Told run job def trigger (running sent [] r) ms
      → Told run job def trigger (finished sent r) (ms ++ run_finished run r ∷ [])
  Told-finish {ms} {sent} {r} (during _ _ _ x) =
      after_finish sent r (subst (λ cs. Executes def cs r) (append-nil sent) x)

  pub Told-untrack :
      {ms : List Message} {sent : List Chunk} {r : Result}
      → Told run job def trigger (finished sent r) ms
      → Told run job def trigger (released sent r) ms
  Told-untrack (after_finish sent r x) = after_release sent r x

pub Told-waiting :
    {run job trigger : String} {def : JobDef} {ms : List Message}
    → Told run job def trigger waiting ms
    → Told run job def trigger admitted ms
Told-waiting before_waiting = before_admitted

pub Told-admitted :
    {run job trigger : String} {def : JobDef} {ms : List Message}
    → Told run job def trigger admitted ms
    → Told run job def trigger tracked ms
Told-admitted before_admitted = before_tracked
