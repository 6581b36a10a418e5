-- ===== src/Runtime/Runs/Gates.antt =====
-- What `admit` and `jobGate` of agent/internal/runtime/runs.go do to the gates of the jobs.
use Prim.Native.String.{String}
use cron_compose.Prelude.{
  string_eq, ◌==◌, ==_iff, ◌≡◌, Bool, true, false, ◌&&◌, List, none, some, if◌then◌else◌, arith,
}
use cron_compose.Prelude.Map.{get, put, get-put}
use cron_compose.Runtime.Runs.{
  Phase, waiting, Thread, job_gate, without_slot, with_slot, refused, blocked, admit, on_gate,
}

abbrev pub slot_taken : String → List (String × Bool) → Bool
slot_taken job gates = elim (get job gates) [ none ↦ false | some b ↦ b ]

abbrev pub is_waiting : Phase → Bool
is_waiting waiting = true
is_waiting _ = false

abbrev pub overlaps : Thread → Bool
overlaps t = t.def.concurrency_policy == "allow"

abbrev pub holds_slot : String → Thread → Bool
holds_slot job t = (t.job_id == job) && t.holds

-- A gate function that took a free slot.
pub record Took (policy job : String) (gates gates' : List (String × Bool)) : Type 0 where
  pub free : slot_taken job gates ≡ false
  pub taken : (j : String) → slot_taken j gates' ≡ (if job == j then true else slot_taken j gates)
  pub exclusive : (policy == "allow") ≡ false

pub admit-Took :
    (policy job : String) (gates gates' : List (String × Bool))
    → admit policy job gates ≡ with_slot gates'
    → Took policy job gates gates'
unfolding admit on_gate job_gate
admit-Took policy job gates gates' e = record {
  free = ground (arith, e);
  taken = λ j. ground (
    arith,
    e,
    get-put job j true gates,
    get-put job j true (put job false gates),
    get-put job j false gates,
    ==_iff job j,
  );
  exclusive = ground (arith, e);
}

pub admit_free :
    (policy job : String) (gates : List (String × Bool))
    → admit policy job gates ≡ without_slot
    → (policy == "allow") ≡ true
unfolding admit on_gate job_gate
admit_free policy job gates e = ground (arith, e)

pub admit_refused :
    (policy job : String) (gates gates' : List (String × Bool))
    → admit policy job gates ≡ refused gates'
    → (j : String) → slot_taken j gates' ≡ slot_taken j gates
unfolding admit on_gate job_gate
admit_refused policy job gates gates' e j = ground (arith, e)

pub admit_blocked :
    (policy job : String) (gates gates' : List (String × Bool))
    → admit policy job gates ≡ blocked gates'
    → ((j : String) → slot_taken j gates' ≡ slot_taken j gates) × (policy ≡ "queue")
unfolding admit on_gate job_gate
admit_blocked policy job gates gates' e =
    (λ j. ground (arith, e), ground (arith, e, ==_iff policy "queue"))
