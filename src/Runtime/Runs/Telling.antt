-- ===== src/Runtime/Runs/Telling.antt =====
-- The messages of a run of agent/internal/runtime/runs.go, whatever the other runs do meanwhile.
use Prim.Native.String.{String}
use cron_compose.Prelude.{
  string_eq, ◌==◌, ==_iff, ◌≡◌, ◌⊎◌, refl, sym, subst, Bool, ◌&&◌, if◌then◌else◌, true, false, List,
  [], ◌∷◌, ◌++◌, some, arith, Bool-cases, inl, inr,
}
use cron_compose.Prelude.Map.{get, put, del, get-put, get-del}
use cron_compose.Store.{JobDef}
use cron_compose.Runtime.Runs.Steps.{
  Step, arrive_free, arrive_slot, arrive_refused, arrive_blocked, take_slot, give_up, track, begin,
  output, finish, untrack, leave, cancel, Reachable, start, next, own, accepted, run_of,
}
use cron_compose.Runtime.Runs.{
  Message, run_started, log_chunk, run_finished, Phase, waiting, admitted, tracked, running,
  finished, released, Thread, Runs, track_run, release_run, cancel_run,
}
use cron_compose.Runtime.Runs.Story.{
  Told, before_waiting, before_admitted, IsLog, silent, own-append, Told-IsLog, Told-begin,
  Told-output, Told-finish, Told-untrack, Told-waiting, Told-admitted,
}

pub record IsTold (s : Runs) : Type 0 where
  pub threads :
      (run : String) (t : Thread)
      → get run s.threads ≡ some t
      → Told run t.job_id t.def t.trigger t.phase (own run s.calls)
  pub logs : (run : String) → IsLog run (own run s.calls)

module _ (s : Runs) (v : IsTold s) where
  -- A step that queues nothing: the run it moves has told as much before as after.
  quiet :
      (run : String) (t : Thread)
      → Told run t.job_id t.def t.trigger t.phase (own run s.calls)
      → IsTold (record s { threads = put run t s.threads })
  quiet run t w = record { threads = λ r u e. by_run r u (Bool-cases (run == r)) e; logs = v.logs }
    where
      it :
          (r : String) (u : Thread)
          → (run == r) ≡ true
          → get r (put run t s.threads) ≡ some u
          → t ≡ u
      it r u same e = ground (arith, e, same, get-put run r t s.threads)

      by_run :
          (r : String) (u : Thread)
          → ((run == r) ≡ true) ⊎ ((run == r) ≡ false)
          → get r (put run t s.threads) ≡ some u
          → Told r u.job_id u.def u.trigger u.phase (own r s.calls)
      by_run r u (inl same) e =
          subst (λ (x : Thread). Told r x.job_id x.def x.trigger x.phase (own r s.calls))
            (it r u same e)
            (subst (λ x. Told x t.job_id t.def t.trigger t.phase (own x s.calls))
              ((==_iff run r).0 same) w)
      by_run r u (inr other) e = v.threads r u (ground (arith, e, other, get-put run r t s.threads))

  loud :
      (run : String) (t : Thread) (m : Message) (kept : Bool)
      → run_of m ≡ run
      → Told run t.job_id t.def t.trigger t.phase (own run s.calls ++ m ∷ [])
      → IsTold (record s { threads = put run t s.threads; calls = s.calls ++ (m, kept) ∷ [] })
  loud run t m kept mine w = record {
    threads = λ r u e. by_run r u (Bool-cases (run == r)) e;
    logs = λ r. log_of r (Bool-cases (run == r));
  }
    where
      heard : own run (s.calls ++ (m, kept) ∷ []) ≡ own run s.calls ++ m ∷ []
      heard = ground (arith, own-append run m kept s.calls, mine, ==_iff (run_of m) run)

      unheard :
          (r : String) → (run == r) ≡ false → own r (s.calls ++ (m, kept) ∷ []) ≡ own r s.calls
      unheard r n =
          ground (arith, own-append r m kept s.calls, mine, n, ==_iff (run_of m) r, ==_iff run r)

      told : Told run t.job_id t.def t.trigger t.phase (own run (s.calls ++ (m, kept) ∷ []))
      told = rw heard w

      it :
          (r : String) (u : Thread)
          → (run == r) ≡ true
          → get r (put run t s.threads) ≡ some u
          → t ≡ u
      it r u same e = ground (arith, e, same, get-put run r t s.threads)

      by_run :
          (r : String) (u : Thread)
          → ((run == r) ≡ true) ⊎ ((run == r) ≡ false)
          → get r (put run t s.threads) ≡ some u
          → Told r u.job_id u.def u.trigger u.phase (own r (s.calls ++ (m, kept) ∷ []))
      by_run r u (inl same) e =
          subst
            (λ (x : Thread).
              Told r x.job_id x.def x.trigger x.phase (own r (s.calls ++ (m, kept) ∷ [])))
            (it r u same e)
            (subst
              (λ x. Told x t.job_id t.def t.trigger t.phase (own x (s.calls ++ (m, kept) ∷ [])))
              ((==_iff run r).0 same) told)
      by_run r u (inr other) e =
          rw (unheard r other) (v.threads r u (ground (arith, e, other, get-put run r t s.threads)))

      log_of :
          (r : String)
          → ((run == r) ≡ true) ⊎ ((run == r) ≡ false)
          → IsLog r (own r (s.calls ++ (m, kept) ∷ []))
      log_of r (inl same) =
          subst (λ x. IsLog x (own x (s.calls ++ (m, kept) ∷ []))) ((==_iff run r).0 same)
            (Told-IsLog told)
      log_of r (inr other) = rw (unheard r other) (v.logs r)

  quits : (run : String) → IsTold (record s { threads = del run s.threads })
  quits run = record {
    threads = λ r u e. v.threads r u (ground (arith, e, get-del run r s.threads));
    logs = v.logs;
  }

  -- What the goroutine of a run has told, at the phase that it is known to be in.
  Told-at :
      (run : String) (t : Thread) (p : Phase)
      → get run s.threads ≡ some t
      → t.phase ≡ p
      → Told run t.job_id t.def t.trigger p (own run s.calls)
  Told-at run t p at e =
      subst (λ q. Told run t.job_id t.def t.trigger q (own run s.calls)) e (v.threads run t at)

cancel_run-shared :
    (run : String) (s : Runs)
    → ((cancel_run run s).calls ≡ s.calls) × ((cancel_run run s).threads ≡ s.threads)
unfolding cancel_run
cancel_run-shared run s = ground arith

-- What is not messages and goroutines does not matter.
elsewhere : {s t : Runs} → IsTold s → t.calls ≡ s.calls → t.threads ≡ s.threads → IsTold t
elsewhere v m e = record {
  threads = λ run. rw (m, e) (v.threads run);
  logs = λ run. rw m (v.logs run);
}

at_rest :
    {run job trigger : String} {def : JobDef} {p : Phase} {ms : List Message}
    → ms ≡ []
    → Told run job def trigger p []
    → Told run job def trigger p ms
at_rest {run} {job} {trigger} {def} {p} e w = subst (λ x. Told run job def trigger p x) (sym e) w

Step-IsTold : {s t : Runs} → Step s t → IsTold s → IsTold t
unfolding track_run release_run
Step-IsTold {s} (arrive_free run job trigger def fresh e) v =
    quiet s v run _ (at_rest fresh.1 before_admitted)
Step-IsTold {s} (arrive_slot run job trigger def gates fresh e) v =
    elsewhere (quiet s v run _ (at_rest fresh.1 before_admitted)) refl refl
Step-IsTold {s} (arrive_refused run job trigger def gates e) v = elsewhere v refl refl
Step-IsTold {s} (arrive_blocked run job trigger def gates fresh e) v =
    elsewhere (quiet s v run _ (at_rest fresh.1 before_waiting)) refl refl
Step-IsTold {s} (take_slot run t gates at w e) v =
    elsewhere
      (quiet s v run (record t { holds = true; phase = admitted })
        (Told-waiting (Told-at s v run t waiting at w)))
      refl refl
Step-IsTold {s} (give_up run t at w) v = quits s v run
Step-IsTold {s} (track run t at p) v =
    elsewhere
      (quiet s v run (record t { phase = tracked })
        (Told-admitted (Told-at s v run t admitted at p)))
      refl refl
Step-IsTold {s} (begin run t kept hosts stopped out r at p e) v =
    loud s v run (record t { phase = running [] out r })
      (run_started run t.job_id t.def.version_id t.trigger) kept refl
      (Told-begin (record { hosts = hosts; stopped = stopped; returns = e })
        (Told-at s v run t tracked at p))
Step-IsTold {s} (output run t kept sent rest c r at p) v =
    loud s v run (record t { phase = running (sent ++ c ∷ []) rest r }) (log_chunk run c) kept refl
      (Told-output (Told-at s v run t _ at p))
Step-IsTold {s} (finish run t kept sent r at p) v =
    loud s v run (record t { phase = finished sent r }) (run_finished run r) kept refl
      (Told-finish (Told-at s v run t _ at p))
Step-IsTold {s} (untrack run t sent r at p) v =
    elsewhere
      (quiet s v run (record t { phase = released sent r })
        (Told-untrack (Told-at s v run t _ at p)))
      refl refl
Step-IsTold {s} (leave run t sent r at p) v = elsewhere (quits s v run) refl refl
Step-IsTold {s} (cancel run) v = let (m, t) = cancel_run-shared run s in elsewhere v m t

Reachable-IsTold : {s : Runs} → Reachable s → IsTold s
unfolding get own
Reachable-IsTold start = record {
  threads = λ run t e. absurd (ground (arith, e));
  logs = λ run. silent refl;
}
Reachable-IsTold (next r e) = Step-IsTold e (Reachable-IsTold r)

-- One list with some of its messages left out.
pub data Sublist : List Message → List Message → Type 0 where
  empty : Sublist [] []
  keep : (m : Message) (ms ns : List Message) → Sublist ms ns → Sublist (m ∷ ms) (m ∷ ns)
  skip : (m : Message) (ms ns : List Message) → Sublist ms ns → Sublist ms (m ∷ ns)

accepted-Sublist :
    (run : String) (calls : List (Message × Bool)) → Sublist (accepted run calls) (own run calls)
unfolding accepted own
accepted-Sublist run [] = empty
accepted-Sublist run ((m, kept) ∷ calls) =
    by_call (run_of m == run) kept (accepted-Sublist run calls)
  where
    by_call :
        (mine kept : Bool)
        → Sublist (accepted run calls) (own run calls)
        → Sublist
            (if mine && kept then m ∷ accepted run calls else accepted run calls)
            (if mine then m ∷ own run calls else own run calls)
    by_call true true h = keep m _ _ h
    by_call true false h = skip m _ _ h
    by_call false kept h = h

-- In every reachable state the messages that a run has handed to queue, in their order, are none; or
-- its start and the first chunks of the attempts of `runWithRetries` on its definition; or its start,
-- all the chunks of these attempts in their order, and its end with their result. What is in the
-- outbox of them is these in the same order, without any for which Enqueue returned an error.
pub Reachable-IsLog :
    {s : Runs} (run : String)
    → Reachable s
    → IsLog run (own run s.calls) × Sublist (accepted run s.calls) (own run s.calls)
Reachable-IsLog {s} run r = ((Reachable-IsTold r).logs run, accepted-Sublist run s.calls)
