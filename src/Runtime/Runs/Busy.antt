-- ===== src/Runtime/Runs/Busy.antt =====
-- `trackRun`, `releaseRun` and `cancelRun` of agent/internal/runtime/runs.go: the index and the counts
-- of active runs are those of the goroutines.
use Prim.Native.String.{String}
use cron_compose.Prelude.{
  ◌+◌, ◌-◌, string_eq, ◌==◌, ==_iff, ◌≡◌, refl, ap, Bool, true, false, ◌&&◌, List, [], ◌∷◌, ◌++◌,
  Option, none, some, arith,
}
use cron_compose.Prelude.Map.{get, put, del, has, Distinct, get-put, get-del}
use cron_compose.Prelude.Counting.{bit, count, count-put_new, count-put_old, count-del, count-one}
use cron_compose.Executor.{Chunk, Result}
use cron_compose.Runtime.Runs.Slots.{Reachable-IsSlotted}
use cron_compose.Runtime.Runs.Steps.{
  Step, arrive_free, arrive_slot, arrive_refused, arrive_blocked, take_slot, give_up, track, begin,
  output, finish, untrack, leave, cancel, Reachable, start, next,
}
use cron_compose.Runtime.Runs.{
  Message, Phase, admitted, tracked, running, finished, released, Thread, Runs, busy, track_run,
  release_run, cancel_run,
}

-- Between `trackRun` and `releaseRun`.
abbrev pub is_active : Phase → Bool
is_active tracked = true
is_active (running sent rest r) = true
is_active (finished sent r) = true
is_active _ = false

abbrev pub active_at : Option Thread → Bool
active_at none = false
active_at (some t) = is_active t.phase

abbrev pub active_for : String → Thread → Bool
active_for job t = (t.job_id == job) && is_active t.phase

pub record IsTracked (s : Runs) : Type 0 where
  pub counts : (job : String) → busy job s.job_busy ≡ count (active_for job) s.threads
  pub indexed : (run : String) → has run s.run_index ≡ active_at (get run s.threads)

inactive : (job : String) (t : Thread) → is_active t.phase ≡ false → bit (active_for job t) ≡ 0
inactive job t idle = ground (arith, idle)

as_active :
    (job : String) (t t' : Thread)
    → t'.job_id ≡ t.job_id
    → is_active t'.phase ≡ is_active t.phase
    → bit (active_for job t') ≡ bit (active_for job t)
as_active job t t' same e = ground (arith, same, e)

module _ (s : Runs) (v : IsTracked s) where
  -- A run that arrives, or changes without a change of its activity.
  arrives :
      (run : String) (t : Thread)
      → get run s.threads ≡ none
      → is_active t.phase ≡ false
      → IsTracked (record s { threads = put run t s.threads })
  arrives run t fresh idle = record {
    counts = λ job. omega (
      arith,
      v.counts job,
      count-put_new (active_for job) run t s.threads fresh,
      inactive job t idle,
    );
    indexed =
        λ r. ground (arith, v.indexed r, get-put run r t s.threads, ==_iff run r, fresh, idle);
  }

  stays :
      (run : String) (t t' : Thread)
      → get run s.threads ≡ some t
      → t'.job_id ≡ t.job_id
      → is_active t'.phase ≡ is_active t.phase
      → IsTracked (record s { threads = put run t' s.threads })
  stays run t t' at same e = record {
    counts = λ job. omega (
      arith,
      v.counts job,
      count-put_old (active_for job) run t' t s.threads at,
      as_active job t t' same e,
    );
    indexed = λ r. ground (arith, v.indexed r, get-put run r t' s.threads, ==_iff run r, at, e);
  }

  goes :
      (run : String) (t : Thread)
      → Distinct s.threads
      → get run s.threads ≡ some t
      → is_active t.phase ≡ false
      → IsTracked (record s { threads = del run s.threads })
  goes run t d at idle = record {
    counts = λ job.
        omega (
          arith,
          v.counts job,
          count-del (active_for job) run t s.threads d at,
          inactive job t idle,
        );
    indexed = λ r. ground (arith, v.indexed r, get-del run r s.threads, ==_iff run r, at, idle);
  }

  tracks :
      (run : String) (t : Thread)
      → get run s.threads ≡ some t
      → t.phase ≡ admitted
      → IsTracked (record (track_run run t.job_id s) {
        threads = put run (record t { phase = tracked }) s.threads;
      })
  unfolding track_run busy has
  tracks run t at p = record {
    counts = λ job. ground (
      arith,
      v.counts job,
      get-put t.job_id job (busy t.job_id s.job_busy + 1) s.job_busy,
      count-put_old (active_for job) run (record t { phase = tracked }) t s.threads at,
      ==_iff t.job_id job,
      ap is_active p,
    );
    indexed = λ r. ground (
      arith,
      v.indexed r,
      get-put run r (t.job_id, false) s.run_index,
      get-put run r (record t { phase = tracked }) s.threads,
      ==_iff run r,
    );
  }

  untracks :
      (run : String) (t : Thread) (sent : List Chunk) (r : Result)
      → get run s.threads ≡ some t
      → t.phase ≡ finished sent r
      → IsTracked (record (release_run run t.job_id s) {
        threads = put run (record t { phase = released sent r }) s.threads;
      })
  unfolding release_run busy has
  untracks run t sent res at p = record {
    counts = λ job. ground (
      arith,
      v.counts job,
      v.counts t.job_id,
      get-put t.job_id job (busy t.job_id s.job_busy - 1) s.job_busy,
      count-put_old (active_for job) run (record t { phase = released sent res }) t s.threads at,
      ==_iff t.job_id job,
      ap is_active p,
      count-one (active_for t.job_id) run t s.threads at
          (ground (arith, ==_iff t.job_id t.job_id, ap is_active p)),
    );
    indexed = λ r. ground (
      arith,
      v.indexed r,
      get-del run r s.run_index,
      get-put run r (record t { phase = released sent res }) s.threads,
      ==_iff run r,
    );
  }

  -- Gates and messages do not matter.
  regated : (gates : List (String × Bool)) → IsTracked (record s { gates = gates })
  regated gates = record { counts = v.counts; indexed = v.indexed }

  told : (m : Message × Bool) → IsTracked (record s { calls = s.calls ++ m ∷ [] })
  told m = record { counts = v.counts; indexed = v.indexed }

cancel_run-IsTracked : (run : String) (s : Runs) → IsTracked s → IsTracked (cancel_run run s)
unfolding cancel_run has
cancel_run-IsTracked run s v = by_index (get run s.run_index) refl
  where
    by_index :
        (o : Option (String × Bool))
        → get run s.run_index ≡ o
        → IsTracked (elim o [
          | none ↦ s
          | some (job, stopped) ↦ record s { run_index = put run (job, true) s.run_index }
        ])
    by_index none e = v
    by_index (some (job, stopped)) e = record {
      counts = v.counts;
      indexed =
          λ r. ground (arith, v.indexed r, e, get-put run r (job, true) s.run_index, ==_iff run r);
    }

Step-IsTracked : {s t : Runs} → Step s t → Distinct s.threads → IsTracked s → IsTracked t
unfolding track_run release_run
Step-IsTracked {s} (arrive_free run job trigger def fresh e) d v = arrives s v run _ fresh.0 refl
Step-IsTracked {s} (arrive_slot run job trigger def gates fresh e) d v =
    arrives (record s { gates = gates }) (regated s v gates) run _ fresh.0 refl
Step-IsTracked {s} (arrive_refused run job trigger def gates e) d v = regated s v gates
Step-IsTracked {s} (arrive_blocked run job trigger def gates fresh e) d v =
    arrives (record s { gates = gates }) (regated s v gates) run _ fresh.0 refl
Step-IsTracked {s} (take_slot run t gates at w e) d v =
    stays (record s { gates = gates }) (regated s v gates) run t _ at refl (rw w refl)
Step-IsTracked {s} (give_up run t at w) d v = goes s v run t d at (rw w refl)
Step-IsTracked {s} (track run t at p) d v = tracks s v run t at p
Step-IsTracked {s} (begin run t kept hosts stopped out r at p e) d v =
    told _ (stays s v run t (record t { phase = running [] out r }) at refl (rw p refl)) _
Step-IsTracked {s} (output run t kept sent rest c r at p) d v =
    told _ (stays s v run t _ at refl (rw p refl)) _
Step-IsTracked {s} (finish run t kept sent r at p) d v =
    told _ (stays s v run t _ at refl (rw p refl)) _
Step-IsTracked {s} (untrack run t sent r at p) d v = untracks s v run t sent r at p
Step-IsTracked {s} (leave run t sent r at p) d v = regated _ (goes s v run t d at (rw p refl)) _
Step-IsTracked {s} (cancel run) d v = cancel_run-IsTracked run s v

-- In every reachable state, the count of a job is the number of its goroutines between trackRun and
-- releaseRun, and the index holds the runs of exactly these goroutines.
pub Reachable-IsTracked : {s : Runs} → Reachable s → IsTracked s
unfolding busy has get count
Reachable-IsTracked start = record { counts = λ job. refl; indexed = λ run. refl }
Reachable-IsTracked (next r e) =
    Step-IsTracked e (Reachable-IsSlotted r).distinct (Reachable-IsTracked r)
