-- ===== src/Runtime/Runs/Exclusion.antt =====
-- Runs of a job that do not allow overlap exclude each other, and a waiting run has a run to wait
-- for: `admit` of agent/internal/runtime/runs.go.
use Prim.Native.String.{String}
use cron_compose.Prelude.{
  string_eq, ◌==◌, ==_iff, ◌≡◌, ◌⊎◌, refl, Bool, true, false, List, Option, none, some, arith,
  Bool-cases, inl, inr,
}
use cron_compose.Prelude.Map.{get, put}
use cron_compose.Prelude.Counting.{count-two, count-found}
use cron_compose.Runtime.Runs.Steps.{Reachable}
use cron_compose.Runtime.Runs.{waiting, Thread, Runs, job_gate, with_slot, admit, on_gate}
use cron_compose.Runtime.Runs.Gates.{slot_taken, is_waiting, overlaps, holds_slot}
use cron_compose.Runtime.Runs.Slots.{Reachable-IsSlotted}

-- In every reachable state, two runs of one job that are past admission, under policies other than
-- "allow", are the same run.
pub one_at_a_time :
    {s : Runs} (j k : String) (t u : Thread)
    → Reachable s
    → get j s.threads ≡ some t
    → get k s.threads ≡ some u
    → t.job_id ≡ u.job_id
    → is_waiting t.phase ≡ false
    → is_waiting u.phase ≡ false
    → overlaps t ≡ false
    → overlaps u ≡ false
    → j ≡ k
one_at_a_time {s} j k t u r at au same wt wu ot ou = elim (Bool-cases (j == k)) [
  | inl e ↦ (==_iff j k).0 e
  | inr e ↦
      let v = Reachable-IsSlotted r in
      let two =
        count-two (holds_slot t.job_id) j k t u s.threads e at au
          (ground (arith, (v.ruled j t at).holding, wt, ot, ==_iff t.job_id t.job_id))
          (ground (arith, (v.ruled k u au).holding, wu, ou, ==_iff u.job_id t.job_id, same)) in
      absurd (ground (arith, two, v.slots t.job_id))
]

free_slot_admits :
    (job : String) (gates : List (String × Bool))
    → slot_taken job gates ≡ false
    → (gates' : List (String × Bool)) × (admit "queue" job gates ≡ with_slot gates')
unfolding admit on_gate job_gate
free_slot_admits job gates h = by_gate (get job gates) h
  where
    by_gate :
        (o : Option Bool)
        → (elim o [ none ↦ false | some b ↦ b ]) ≡ false
        → (gates' : List (String × Bool)) × (on_gate "queue" job
              (elim o [ none ↦ (false, put job false gates) | some b ↦ (b, gates) ])
            ≡ with_slot gates')
    by_gate none h = (put job true (put job false gates), refl)
    by_gate (some false) h = (put job true gates, refl)
    by_gate (some true) h = absurd (ground (arith, h))

-- In every reachable state, a run that waits for the slot of its job can take it, or another run of
-- that job, which is past admission, holds it.
pub waiting_for :
    {s : Runs} (run : String) (t : Thread)
    → Reachable s
    → get run s.threads ≡ some t
    → t.phase ≡ waiting
    → ((gates : List (String × Bool)) × (admit "queue" t.job_id s.gates ≡ with_slot gates))
      ⊎ ((k : String) × (u : Thread) × (get k s.threads ≡ some u)
          × (u.job_id ≡ t.job_id)
          × (u.holds ≡ true)
          × (is_waiting u.phase ≡ false))
waiting_for {s} run t r at w = elim (Bool-cases (slot_taken t.job_id s.gates)) [
  | inl taken ↦
      let v = Reachable-IsSlotted r in
      let (k, u, e, p) =
        count-found (holds_slot t.job_id) s.threads v.distinct
          (ground (arith, v.slots t.job_id, taken)) in
      inr (
        k,
        u,
        e,
        ground (arith, p, ==_iff u.job_id t.job_id),
        ground (arith, p),
        ground (arith, p, (v.ruled k u e).holding),
      )
  | inr free ↦ inl (free_slot_admits t.job_id s.gates free)
]
