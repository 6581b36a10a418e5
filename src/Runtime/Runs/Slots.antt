-- ===== src/Runtime/Runs/Slots.antt =====
-- The one-slot gates of `admit` in agent/internal/runtime/runs.go: in every reachable state a slot is
-- taken exactly while one run holds it.
use Prim.Native.String.{String}
use cron_compose.Prelude.{
  ◌+◌, string_eq, ◌==◌, ==_iff, ◌≡◌, refl, ap, subst, Bool, true, false, not, ◌&&◌, List, none,
  some, if◌then◌else◌, arith, Bool-cases, inl, inr,
}
use cron_compose.Prelude.Map.{get, put, del, Distinct, get-put, get-del, put-Distinct, del-Distinct}
use cron_compose.Prelude.Counting.{bit, count, count-put_new, count-put_old, count-del, count-one}
use cron_compose.Runtime.Runs.Steps.{
  Step, arrive_free, arrive_slot, arrive_refused, arrive_blocked, take_slot, give_up, track, begin,
  output, finish, untrack, leave, cancel, Reachable, start, next,
}
use cron_compose.Runtime.Runs.{
  Phase, waiting, admitted, tracked, Thread, Runs, free_slot, track_run, release_run, cancel_run,
}
use cron_compose.Runtime.Runs.Gates.{
  slot_taken, is_waiting, overlaps, holds_slot, admit-Took, admit_free, admit_refused,
  admit_blocked,
}

-- A run holds the slot exactly if it is past admission and its policy does not allow overlap.
pub record Ruled (t : Thread) : Type 0 where
  pub holding : t.holds ≡ (not (is_waiting t.phase) && not (overlaps t))
  pub waits : is_waiting t.phase ≡ true → overlaps t ≡ false

pub record IsSlotted (gates : List (String × Bool)) (threads : List (String × Thread))
    : Type 0 where
  pub distinct : Distinct threads
  pub ruled : (run : String) (t : Thread) → get run threads ≡ some t → Ruled t
  pub slots : (job : String) → count (holds_slot job) threads ≡ bit (slot_taken job gates)

module _ (gates : List (String × Bool)) (threads : List (String × Thread))
    (v : IsSlotted gates threads) where
  Ruled-put :
      (run : String) (t : Thread)
      → Ruled t
      → (r : String) (u : Thread) → get r (put run t threads) ≡ some u
      → Ruled u
  Ruled-put run t w r u e = elim (Bool-cases (run == r)) [
    | inl same ↦ subst (λ x. Ruled x) (ground (arith, e, get-put run r t threads)) w
    | inr other ↦ v.ruled r u (ground (arith, e, get-put run r t threads))
  ]

  -- A new run, which does not hold a slot, or holds the one that it took.
  entered :
      (run : String) (t : Thread) (gates' : List (String × Bool))
      → get run threads ≡ none
      → Ruled t
      → ((job : String)
          → bit (slot_taken job gates) + bit (holds_slot job t) ≡ bit (slot_taken job gates'))
      → IsSlotted gates' (put run t threads)
  entered run t gates' fresh w g = record {
    distinct = put-Distinct run t threads v.distinct;
    ruled = Ruled-put run t w;
    slots = λ job.
        omega (arith, count-put_new (holds_slot job) run t threads fresh, v.slots job, g job);
  }

  -- A run that changes, and takes a slot or not.
  moved :
      (run : String) (t t' : Thread) (gates' : List (String × Bool))
      → get run threads ≡ some t
      → Ruled t'
      → ((job : String)
          → bit (slot_taken job gates) + bit (holds_slot job t')
            ≡ bit (slot_taken job gates') + bit (holds_slot job t))
      → IsSlotted gates' (put run t' threads)
  moved run t t' gates' at w g = record {
    distinct = put-Distinct run t' threads v.distinct;
    ruled = Ruled-put run t' w;
    slots = λ job.
        omega (arith, count-put_old (holds_slot job) run t' t threads at, v.slots job, g job);
  }

  left :
      (run : String) (t : Thread) (gates' : List (String × Bool))
      → get run threads ≡ some t
      → ((job : String)
          → bit (slot_taken job gates') + bit (holds_slot job t) ≡ bit (slot_taken job gates))
      → IsSlotted gates' (del run threads)
  left run t gates' at g = record {
    distinct = del-Distinct run threads v.distinct;
    ruled = λ r u e. v.ruled r u (ground (arith, e, get-del run r threads));
    slots = λ job.
        omega (arith, count-del (holds_slot job) run t threads v.distinct at, v.slots job, g job);
  }

  -- A run past admission that stays past admission.
  passed :
      (run : String) (t : Thread) (p : Phase)
      → get run threads ≡ some t
      → is_waiting t.phase ≡ false
      → is_waiting p ≡ false
      → IsSlotted gates (put run (record t { phase = p }) threads)
  passed run t p at n n' =
      moved run t (record t { phase = p }) gates at
        (record {
          holding = ground (arith, (v.ruled run t at).holding, n, n');
          waits = λ h. ground (arith, h, n');
        })
        (λ job. refl)

  leaving :
      (run : String) (t : Thread)
      → get run threads ≡ some t
      → (job : String)
      → bit (slot_taken job (free_slot t.holds t.job_id gates)) + bit (holds_slot job t)
        ≡ bit (slot_taken job gates)
  unfolding free_slot
  leaving run t at job = by_holds t.holds refl
    where
      by_holds :
          (h : Bool)
          → t.holds ≡ h
          → bit (slot_taken job (if h then put t.job_id false gates else gates))
              + bit ((t.job_id == job) && h)
            ≡ bit (slot_taken job gates)
      by_holds false e = ground arith
      by_holds true e = elim (Bool-cases (t.job_id == job)) [
        | inl same ↦ ground (
          arith,
          same,
          get-put t.job_id job false gates,
          v.slots job,
          count-one (holds_slot job) run t threads at (rw (same, e) refl),
        )
        | inr other ↦ ground (arith, other, get-put t.job_id job false gates)
      ]

idle : {t : Thread} → Ruled t → t.phase ≡ waiting → t.holds ≡ false
idle {t} r w = ground (arith, r.holding, ap is_waiting w)

cancel_run-maps :
    (run : String) (s : Runs)
    → ((cancel_run run s).gates ≡ s.gates) × ((cancel_run run s).threads ≡ s.threads)
unfolding cancel_run
cancel_run-maps run s = ground arith

Step-IsSlotted : {s t : Runs} → Step s t → IsSlotted s.gates s.threads → IsSlotted t.gates t.threads
unfolding track_run release_run
Step-IsSlotted {s} (arrive_free run job trigger def fresh e) v =
    entered s.gates s.threads v run _ s.gates fresh.0
      (record {
        holding = ground (arith, admit_free def.concurrency_policy job s.gates e);
        waits = λ h. ground (arith, h);
      })
      (λ j. ground arith)
Step-IsSlotted {s} (arrive_slot run job trigger def gates fresh e) v =
    let a = admit-Took def.concurrency_policy job s.gates gates e in
    entered s.gates s.threads v run _ gates fresh.0
      (record { holding = ground (arith, a.exclusive); waits = λ h. a.exclusive })
      (λ j. ground (arith, a.free, a.taken j, ==_iff job j))
Step-IsSlotted {s} (arrive_refused run job trigger def gates e) v = record {
  distinct = v.distinct;
  ruled = v.ruled;
  slots =
      λ j. ground (arith, v.slots j, admit_refused def.concurrency_policy job s.gates gates e j);
}
Step-IsSlotted {s} (arrive_blocked run job trigger def gates fresh e) v =
    let a = admit_blocked def.concurrency_policy job s.gates gates e in
    entered s.gates s.threads v run _ gates fresh.0
      (record { holding = refl; waits = λ h. rw a.1 refl }) (λ j. ground (arith, a.0 j))
Step-IsSlotted {s} (take_slot run t gates at w e) v =
    let a = admit-Took "queue" t.job_id s.gates gates e in
    let r = v.ruled run t at in
    moved s.gates s.threads v run t (record t { holds = true; phase = admitted }) gates at
      (record { holding = ground (arith, r.waits (rw w refl)); waits = λ h. ground (arith, h) })
      (λ j. ground (arith, a.free, a.taken j, ==_iff t.job_id j, idle r w))
Step-IsSlotted {s} (give_up run t at w) v =
    left s.gates s.threads v run t s.gates at (λ j. ground (arith, idle (v.ruled run t at) w))
Step-IsSlotted {s} (track run t at p) v =
    passed s.gates s.threads v run t tracked at (rw p refl) refl
Step-IsSlotted {s} (begin run t kept hosts stopped out r at p e) v =
    passed s.gates s.threads v run t _ at (rw p refl) refl
Step-IsSlotted {s} (output run t kept sent rest c r at p) v =
    passed s.gates s.threads v run t _ at (rw p refl) refl
Step-IsSlotted {s} (finish run t kept sent r at p) v =
    passed s.gates s.threads v run t _ at (rw p refl) refl
Step-IsSlotted {s} (untrack run t sent r at p) v =
    passed s.gates s.threads v run t _ at (rw p refl) refl
Step-IsSlotted {s} (leave run t sent r at p) v =
    left s.gates s.threads v run t _ at (leaving s.gates s.threads v run t at)
Step-IsSlotted {s} (cancel run) v = rw (cancel_run-maps run s).0 (rw (cancel_run-maps run s).1 v)

pub Reachable-IsSlotted : {s : Runs} → Reachable s → IsSlotted s.gates s.threads
unfolding get count
Reachable-IsSlotted start = record {
  distinct = tt;
  ruled = λ run t e. absurd (ground (arith, e));
  slots = λ job. refl;
}
Reachable-IsSlotted (next r e) = Step-IsSlotted e (Reachable-IsSlotted r)
