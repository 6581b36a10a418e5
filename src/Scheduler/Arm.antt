-- ===== src/Scheduler/Arm.antt =====
-- The second half of the body of `Apply`'s second loop in agent/internal/scheduler/scheduler.go:
-- finding or making the timezone's instance, and adding the job's entry to it.
use Prim.Native.String.{String}
use cron_compose.Prelude.{
  ℕ, string_eq, false, nat_eq, ◌==◌, ==_iff, ◌≡◌, refl, ap, ◌∙◌, Option, none, some, Option-cases,
  Bool-cases, if◌then◌else◌, arith, inl, inr,
}
use cron_compose.Prelude.Map.{put-Distinct, get, put, get-put}
use cron_compose.Scheduler.Cron.{CronLib}
use cron_compose.Scheduler.Plan.{plan, plan_entry, Armed, IsConsistent}
use cron_compose.Scheduler.{
  Scheduler, JobDef, Entry, Applied, applied, refused, cron_for, add_entry,
}

module _ (lib : CronLib) where
  open lib use {Cron, new, lookup, add_func, remove}

  -- A state that schedules what `s` schedules, and has this instance for the timezone.
  record Found (s : Scheduler lib) (tz : String) (r : Cron × Scheduler lib) : Type 0 where
    present : get tz r.1.crons ≡ some r.0
    consistent : IsConsistent lib r.1
    entries : r.1.entries ≡ s.entries
    plan_lem : (j : String) → plan lib r.1 j ≡ plan lib s j

  module _ (s : Scheduler lib) (v : IsConsistent lib s) (tz : String)
      (absent : get tz s.crons ≡ none) where
    abbrev with_new : Scheduler lib
    with_new = record s { crons = put tz (new tz) s.crons }

    with_new-IsConsistent : IsConsistent lib with_new
    with_new-IsConsistent = record {
      armed = λ job z id e.
          let a = v.armed job z id e in
          record {
            cron = a.cron;
            spec = a.spec;
            present = ground (arith, get-put tz z (new tz) s.crons, ==_iff tz z, a.present);
            holds = a.holds;
          };
      owned = λ z c id spec job p h.
          v.owned z c id spec job
            (ground (arith, get-put tz z (new tz) s.crons, ==_iff tz z, lib.lookup-new tz id)) h;
      distinct = v.distinct;
    }

    plan-with_new : (j : String) → plan lib with_new j ≡ plan lib s j
    unfolding plan
    plan-with_new j = kept (get j s.entries) refl
      where
        kept :
            (e : Option Entry)
            → get j s.entries ≡ e
            → plan_entry lib with_new.crons e ≡ plan_entry lib s.crons e
        kept none e = refl
        kept (some (z, i)) e =
            let a = v.armed j z i e in
            ground (arith, get-put tz z (new tz) s.crons, ==_iff tz z, a.present)

  cron_for-Found :
      (s : Scheduler lib) (tz : String) → IsConsistent lib s → Found s tz (cron_for lib tz s)
  unfolding cron_for
  cron_for-Found s tz v = elim (Option-cases (get tz s.crons)) [
    | inl absent ↦
        rw (absent, cron_for)
          (record {
            present = ground (arith, get-put tz tz (new tz) s.crons, ==_iff tz tz);
            consistent = with_new-IsConsistent s v tz absent;
            entries = refl;
            plan_lem = plan-with_new s v tz absent;
          })
    | inr (c, found) ↦
        rw (found, cron_for)
          (record { present = found; consistent = v; entries = refl; plan_lem = λ j. refl })
  ]

  module _ (s : Scheduler lib) (v : IsConsistent lib s) (j : JobDef) (c c' : Cron) (id : ℕ)
      (fresh : get j.id s.entries ≡ none) (present : get j.timezone s.crons ≡ some c)
      (added : add_func j.schedule_cron j.id c ≡ some (c', id)) where
    abbrev with_entry : Scheduler lib
    with_entry = record s {
      crons = put j.timezone c' s.crons;
      entries = put j.id (j.timezone, id) s.entries;
    }

    lookup-added :
        (i : ℕ) → lookup c' i ≡ (if id == i then some (j.schedule_cron, j.id) else lookup c i)
    lookup-added i = lib.lookup-add_func j.schedule_cron j.id c c' id i added

    unused : lookup c id ≡ none
    unused = lib.add_func_fresh j.schedule_cron j.id c c' id added

    crons_at :
        (z : String) → get z with_entry.crons ≡ (if j.timezone == z then some c' else get z s.crons)
    crons_at z = get-put j.timezone z c' s.crons

    entries_at :
        (job : String)
        → get job with_entry.entries
          ≡ (if j.id == job then some (j.timezone, id) else get job s.entries)
    entries_at job = get-put j.id job (j.timezone, id) s.entries

    kept-Armed :
        (job z : String) (i : ℕ) → get job s.entries ≡ some (z, i) → Armed lib with_entry job z i
    kept-Armed job z i e = elim (Bool-cases (j.timezone == z)) [
      | inl same ↦ record {
        cron = c';
        spec = a.spec;
        present = ground (arith, crons_at z);
        holds = ground (
          arith,
          lookup-added i,
          unused,
          ==_iff id i,
          ==_iff j.timezone z,
          a.present,
          a.holds,
          present,
        );
      }
      | inr other ↦ record {
        cron = a.cron;
        spec = a.spec;
        present = ground (arith, crons_at z, a.present);
        holds = a.holds;
      }
    ]
      where
        a : Armed lib s job z i
        a = v.armed job z i e

    with_entry-Armed :
        (job z : String) (i : ℕ)
        → get job with_entry.entries ≡ some (z, i)
        → Armed lib with_entry job z i
    with_entry-Armed job z i e = elim (Bool-cases (j.id == job)) [
      | inl same ↦ record {
        cron = c';
        spec = j.schedule_cron;
        present = ground (arith, crons_at z, entries_at job, ==_iff j.timezone z);
        holds = ground (arith, lookup-added i, entries_at job, ==_iff id i, ==_iff j.id job);
      }
      | inr other ↦ kept-Armed job z i (ground (arith, entries_at job))
    ]

    with_entry-owned :
        (z : String) (d : Cron) (i : ℕ) (spec job : String)
        → get z with_entry.crons ≡ some d
        → lookup d i ≡ some (spec, job)
        → get job with_entry.entries ≡ some (z, i)
    with_entry-owned z d i spec job p h = elim (Bool-cases (j.timezone == z)) [
      | inl same ↦ elim (Bool-cases (id == i)) [
        | inl new_entry ↦ ground (
          arith,
          crons_at z,
          lookup-added i,
          entries_at job,
          ==_iff j.id job,
          ==_iff id i,
          ==_iff j.timezone z,
        )
        | inr old_entry ↦
            let old : lookup c i ≡ some (spec, job) = ground (arith, crons_at z, lookup-added i) in
            ground (
              arith,
              v.owned j.timezone c i spec job present old,
              entries_at job,
              ==_iff j.id job,
              ==_iff j.timezone z,
              fresh,
            )
      ]
      | inr other ↦ ground (
        arith,
        v.owned z d i spec job (ground (arith, crons_at z)) h,
        entries_at job,
        ==_iff j.id job,
        fresh,
      )
    ]

    plan-with_entry :
        (job : String)
        → plan lib with_entry job
          ≡ (if j.id == job then some (j.timezone, j.schedule_cron) else plan lib s job)
    unfolding plan
    plan-with_entry job = elim (Bool-cases (j.id == job)) [
      | inl same ↦
          rw (entries_at job, same)
            (ground (
              arith,
              crons_at j.timezone,
              ==_iff j.timezone j.timezone,
              lookup-added id,
              ==_iff id id,
            ))
      | inr other ↦ rw (entries_at job, other) (kept (get job s.entries) refl)
    ]
      where
        kept :
            (e : Option Entry)
            → get job s.entries ≡ e
            → plan_entry lib with_entry.crons e ≡ plan_entry lib s.crons e
        kept none e = refl
        kept (some (z, i)) e =
            let a = v.armed job z i e in
            ground (
              arith,
              crons_at z,
              lookup-added i,
              unused,
              ==_iff id i,
              ==_iff j.timezone z,
              a.present,
              a.holds,
              present,
            )

  -- What adding an enabled job's entry returns: with the job under its timezone and expression
  -- and the rest of the plan as it was, or, if the expression does not parse, with the plan as it
  -- was.
  pub data Added (s : Scheduler lib) (j : JobDef) (r : Applied (Scheduler lib)) : Type 0 where
    done :
        (s' : Scheduler lib)
        → r ≡ applied s'
        → IsConsistent lib s'
        → ((job : String)
            → plan lib s' job
              ≡ (if j.id == job then some (j.timezone, j.schedule_cron) else plan lib s job))
        → Added s j r
    bad_schedule :
        (s' : Scheduler lib)
        → r ≡ refused s'
        → IsConsistent lib s'
        → lib.parses j.schedule_cron ≡ false
        → ((job : String) → plan lib s' job ≡ plan lib s job)
        → Added s j r

  add_entry-Added_from :
      (s : Scheduler lib) (j : JobDef) (c : Cron) (s' : Scheduler lib)
      → get j.id s.entries ≡ none
      → Found s j.timezone (c, s')
      → Added s j (add_entry lib j (c, s'))
  unfolding add_entry
  add_entry-Added_from s j c s' fresh f = elim (Option-cases (add_func j.schedule_cron j.id c)) [
    | inl bad ↦
        bad_schedule s' (rw (bad, add_entry)) f.consistent (lib.add_func_refused _ _ c bad)
          f.plan_lem
    | inr ((c', id), added) ↦
        let fresh' : get j.id s'.entries ≡ none = rw f.entries fresh in
        done (with_entry s' f.consistent j c c' id fresh' f.present added) (rw (added, add_entry))
          (record {
            armed = with_entry-Armed s' f.consistent j c c' id fresh' f.present added;
            owned = with_entry-owned s' f.consistent j c c' id fresh' f.present added;
            distinct = put-Distinct j.id (j.timezone, id) s'.entries f.consistent.distinct;
          })
          λ job.
            plan-with_entry s' f.consistent j c c' id fresh' f.present added job
            ∙ ap (λ x. if j.id == job then some (j.timezone, j.schedule_cron) else x)
                (f.plan_lem job)
  ]

  pub add_entry-Added :
      (s : Scheduler lib) (j : JobDef)
      → get j.id s.entries ≡ none
      → IsConsistent lib s
      → Added s j (add_entry lib j (cron_for lib j.timezone s))
  add_entry-Added s j fresh v =
      add_entry-Added_from s j (cron_for lib j.timezone s).0 (cron_for lib j.timezone s).1 fresh
        (cron_for-Found s j.timezone v)
