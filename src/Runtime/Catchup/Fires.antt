-- ===== src/Runtime/Catchup/Fires.antt =====
-- `recordFire` of agent/internal/runtime/catchup.go and the history that the next process loads.
use Prim.Native.String.{String}
use cron_compose.Prelude.{
  ℕ, ◌≤◌, string_eq, ◌==◌, ==_iff, ◌≡◌, ap, true, List, [], ◌∷◌, Option, none, some, if◌then◌else◌,
  ◌∙◌, All, arith, Bool-cases, inl, inr,
}
use cron_compose.Prelude.Map.{get, get-put}
use cron_compose.Store.Files.{Disk, StateCodec}
use cron_compose.Store.Atomic.{save_state-SavesState}
use cron_compose.Store.{JobStates, save_state}
use cron_compose.Runtime.Catchup.{
  History, load_history, stamp_fire, save_snapshot, Section, stamp, save, run_sections, states_of,
}

module _ (d : Disk) (json : StateCodec) where
  open d use {State}

  -- The history of a new process.
  abbrev pub fresh : State → History d json
  fresh st = record { loaded = none; disk = st }

  -- The history that a new process loads.
  abbrev pub reloaded : History d json → JobStates
  reloaded h = (load_history d json (fresh h.disk)).0

  -- The time of a job that fired at `at` or later.
  abbrev pub HasFired : ℕ → Option ℕ → Type 0
  HasFired at o = (t : ℕ) × (o ≡ some t) × (at ≤ t)

  -- A section that saves no copy in which the job has not fired yet.
  abbrev pub Keeps : String → ℕ → Section d json → Type 0
  Keeps job at (stamp j t) = Unit
  Keeps job at (save m) = HasFired at (get job m)

  reloaded-save_snapshot :
      (job : String) (at : ℕ) (m : JobStates) (h : History d json)
      → HasFired at (get job m)
      → HasFired at (get job (reloaded h))
      → HasFired at (get job (reloaded (save_snapshot d json m h)))
  unfolding load_history save_snapshot
  reloaded-save_snapshot job at m h new old =
      let r = save_state-SavesState d json m h.disk in
      elim (Bool-cases (save_state d json m h.disk).1) [
        | inl e ↦ let (t, is, le) = new in (t, r.new e job ∙ is, le)
        | inr e ↦ let (t, is, le) = old in (t, ap (get job) (r.old e) ∙ is, le)
      ]

  reloaded-run_sections :
      (job : String) (at : ℕ) (xs : List (Section d json)) (h : History d json)
      → All (Keeps job at) xs
      → HasFired at (get job (reloaded h))
      → HasFired at (get job (reloaded (run_sections d json xs h)))
  unfolding run_sections load_history stamp_fire
  reloaded-run_sections job at [] h keeps fired = fired
  reloaded-run_sections job at (stamp j t ∷ xs) h keeps fired =
      reloaded-run_sections job at xs (stamp_fire d json j t h).1 keeps.1 fired
  reloaded-run_sections job at (save m ∷ xs) h keeps fired =
      reloaded-run_sections job at xs (save_snapshot d json m h) keeps.1
        (reloaded-save_snapshot job at m h keeps.0 fired)

  -- Whatever other goroutines stamp and save between the two sections of recordFire, if its save
  -- returned nil, the history that a process loads then has the time of that fire for the job, and for
  -- every other job what the agent had in memory, or would have loaded, when the fire was stamped. A
  -- process that is started later loads that time or a later one for the job, if the copies that were
  -- saved in the meantime have one.
  pub record_fire_lem :
      (job : String) (at : ℕ) (h : History d json) (between after : List (Section d json))
      → let (m, h1) = stamp_fire d json job at h in
        let h2 = run_sections d json between h1 in
        (save_state d json m h2.disk).1 ≡ true
        → All (Keeps job at) after
        → let h3 = save_snapshot d json m h2 in
          ((k : String)
            → get k (reloaded h3) ≡ (if job == k then some at else get k (load_history d json h).0))
          × HasFired at (get job (reloaded (run_sections d json after h3)))
  unfolding load_history stamp_fire save_snapshot
  record_fire_lem job at h between after saved keeps =
      let (m, h1) = stamp_fire d json job at h in
      let h2 = run_sections d json between h1 in
      let h3 = save_snapshot d json m h2 in
      let now : (k : String)
          → get k (reloaded h3) ≡ (if job == k then some at else get k (load_history d json h).0) =
        λ k.
          (save_state-SavesState d json m h2.disk).new saved k
          ∙ get-put job k at (states_of d json h) in
      (
        now,
        reloaded-run_sections job at after h3 keeps
            (at, now job ∙ ground (arith, ==_iff job job), omega arith),
      )
