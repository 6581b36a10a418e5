-- ===== src/Store/Atomic.antt =====
-- `SaveJobs` and `SaveState` of agent/internal/store replace their file as a whole or not at all.
use Prim.Native.String.{String}
use cron_compose.Prelude.{
  string_eq, ◌==◌, ◌≡◌, refl, sym, ap, ◌∙◌, Bool, true, false, List, Option, none, some, Bytes,
  Option-cases, inl, inr, arith,
}
use cron_compose.Prelude.Map.{get}
use cron_compose.Store.Files.{Disk, content, Codec, StateCodec}
use cron_compose.Store.{
  JobDef, JobStates, save_as, save_jobs, load_jobs, save_state, load_state, rename_written,
  decoded_or_empty,
}

module _ (d : Disk) where
  open d use {State, read, write, rename}

  -- The file holds the new bytes if the call returned nil, and what it held before otherwise; files
  -- other than the two are untouched.
  pub record Replaces (tmp final : String) (bytes : Option Bytes) (st : State) (r : State × Bool)
      : Type 0 where
    pub saved : r.1 ≡ true → (b : Bytes) × (bytes ≡ some b) × (read final r.0 ≡ content b)
    pub kept : r.1 ≡ false → read final r.0 ≡ read final st
    pub others : (f : String) → (tmp == f) ≡ false → (final == f) ≡ false → read f r.0 ≡ read f st

  module _ (tmp final : String) (apart : (tmp == final) ≡ false) (b : Bytes) (st : State) where
    written :
        (st' : State) (ok : Bool)
        → write tmp b st ≡ (st', ok)
        → Replaces tmp final (some b) st (rename_written d tmp final (st', ok))
    unfolding rename_written
    written st' false e = record {
      saved = λ h. ground (arith, h);
      kept = λ h. sym (ap (λ r. read final r.0) e) ∙ d.read-write_other tmp final b st apart;
      others = λ f h h'. sym (ap (λ r. read f r.0) e) ∙ d.read-write_other tmp f b st h;
    }
    written st' true e = elim (Option-cases (rename tmp final st')) [
      | inl r ↦
          rw (r, rename_written)
            (record {
              saved = λ h. ground (arith, h);
              kept =
                  λ h. sym (ap (λ r. read final r.0) e) ∙ d.read-write_other tmp final b st apart;
              others = λ f h h'. sym (ap (λ r. read f r.0) e) ∙ d.read-write_other tmp f b st h;
            })
      | inr (st2, r) ↦
          rw (r, rename_written)
            (record {
              saved =
                  λ h. (b, refl, d.read-rename tmp final st' st2 r ∙ d.read-write tmp b st st' e);
              kept = λ h. ground (arith, h);
              others = λ f h h'.
                  d.read-rename_other tmp final f st' st2 r h h'
                  ∙ (sym (ap (λ r. read f r.0) e) ∙ d.read-write_other tmp f b st h);
            })
    ]

  pub save_as-Replaces :
      (tmp final : String) (bytes : Option Bytes) (st : State)
      → (tmp == final) ≡ false
      → Replaces tmp final bytes st (save_as d tmp final bytes st)
  unfolding save_as
  save_as-Replaces tmp final none st apart = record {
    saved = λ h. ground (arith, h);
    kept = λ h. refl;
    others = λ f h h'. refl;
  }
  save_as-Replaces tmp final (some b) st apart =
      written tmp final apart b st (write tmp b st).0 (write tmp b st).1 refl

  module _ (json : Codec (List JobDef)) where
    load_jobs_reads :
        (st st' : State)
        → read "jobs.json" st' ≡ read "jobs.json" st
        → load_jobs d json st' ≡ load_jobs d json st
    unfolding load_jobs
    load_jobs_reads st st' e = rw (e, load_jobs) refl

    load_jobs_content :
        (st : State) (b : Bytes) (jobs : List JobDef)
        → read "jobs.json" st ≡ content b
        → json.encode jobs ≡ some b
        → load_jobs d json st ≡ some jobs
    unfolding load_jobs
    load_jobs_content st b jobs e h = rw (e, load_jobs) (json.decode-encode jobs b h)

    -- A saved job set is what the next process loads, and a failed save leaves that what it was:
    -- a definition is never lost or torn by a save. The history of the jobs is untouched.
    pub record SavesJobs (jobs : List JobDef) (st : State) (r : State × Bool) : Type 0 where
      pub new : r.1 ≡ true → load_jobs d json r.0 ≡ some jobs
      pub old : r.1 ≡ false → load_jobs d json r.0 ≡ load_jobs d json st
      pub history : (states : StateCodec) → load_state d states r.0 ≡ load_state d states st

    -- `SaveJobs` that returns nil makes `LoadJobs` return that job set, and one that returns an error
    -- leaves what `LoadJobs` returns as it was; what `LoadState` returns is the same either way.
    pub save_jobs-SavesJobs :
        (jobs : List JobDef) (st : State) → SavesJobs jobs st (save_jobs d json jobs st)
    unfolding save_jobs load_state
    save_jobs-SavesJobs jobs st =
        let r = save_as-Replaces "jobs.json.tmp" "jobs.json" (json.encode jobs) st refl in
        record {
          new = λ h. let (b, e, c) = r.saved h in load_jobs_content _ b jobs c e;
          old = λ h. load_jobs_reads st _ (r.kept h);
          history = λ states. rw (r.others "state.json" refl refl, load_state) refl;
        }

  module _ (json : StateCodec) where
    -- A saved history is what the next process loads, as a map; a failed save leaves the old one.
    pub record SavesState (states : JobStates) (st : State) (r : State × Bool) : Type 0 where
      pub new : r.1 ≡ true → (job : String) → get job (load_state d json r.0) ≡ get job states
      pub old : r.1 ≡ false → load_state d json r.0 ≡ load_state d json st
      pub jobs : (defs : Codec (List JobDef)) → load_jobs d defs r.0 ≡ load_jobs d defs st

    load_state_content :
        (st : State) (b : Bytes) (states : JobStates)
        → read "state.json" st ≡ content b
        → json.encode states ≡ some b
        → (job : String) → get job (load_state d json st) ≡ get job states
    unfolding load_state decoded_or_empty
    load_state_content st b states e h job =
        let (m', r, q) = json.decode-encode states b h in rw (e, load_state) (rw r (q job))

    -- `SaveState` that returns nil makes `LoadState` return that history as a map, and one that
    -- returns an error leaves what `LoadState` returns as it was; what `LoadJobs` returns is the same
    -- either way.
    pub save_state-SavesState :
        (states : JobStates) (st : State) → SavesState states st (save_state d json states st)
    unfolding save_state load_jobs load_state
    save_state-SavesState states st =
        let r = save_as-Replaces "state.json.tmp" "state.json" (json.encode states) st refl in
        record {
          new = λ h. let (b, e, c) = r.saved h in load_state_content _ b states c e;
          old = λ h. rw (r.kept h, load_state) refl;
          jobs = λ defs. rw (r.others "jobs.json" refl refl, load_jobs) refl;
        }
