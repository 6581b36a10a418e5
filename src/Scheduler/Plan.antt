-- ===== src/Scheduler/Plan.antt =====
-- What the scheduler of agent/internal/scheduler/scheduler.go is set to fire, seen from outside:
-- for each job its timezone and its expression. Each step of `Apply` changes this map as a map.
use Prim.Native.String.{String}
use cron_compose.Prelude.{
  ℕ, string_eq, nat_eq, ◌==◌, ==_iff, ◌≡◌, refl, sym, false, List, Option, none, some, Option-cases,
  Bool-cases, if◌then◌else◌, arith, inl, inr,
}
use cron_compose.Prelude.Map.{Distinct, del-Distinct, get, put, del, get-put, get-del}
use cron_compose.Scheduler.Cron.{CronLib}
use cron_compose.Scheduler.{Scheduler, Entry, Applied, applied, remove_entry, drop_existing}

module _ (lib : CronLib) where
  open lib use {Cron, new, lookup, add_func, remove}

  abbrev pub spec_at : String → Option (String × String) → Option (String × String)
  spec_at tz none = none
  spec_at tz (some (spec, job)) = some (tz, spec)

  abbrev pub plan_in : String → ℕ → Option Cron → Option (String × String)
  plan_in tz id none = none
  plan_in tz id (some c) = spec_at tz (lookup c id)

  abbrev pub plan_entry : List (String × Cron) → Option Entry → Option (String × String)
  plan_entry crons none = none
  plan_entry crons (some (tz, id)) = plan_in tz id (get tz crons)

  -- The timezone and the expression under which the job fires, if it is scheduled.
  unfoldable pub plan : Scheduler lib → String → Option (String × String)
  plan s job = plan_entry s.crons (get job s.entries)

  pub record Armed (s : Scheduler lib) (job : String) (tz : String) (id : ℕ) : Type 0 where
    pub cron : Cron
    pub spec : String
    pub present : get tz s.crons ≡ some cron
    pub holds : lookup cron id ≡ some (spec, job)

  -- The entries of the scheduler are those of the cron instances: every job on record has its
  -- entry there, and every entry there is the one on record for its job.
  pub record IsConsistent (s : Scheduler lib) : Type 0 where
    pub armed : (job tz : String) (id : ℕ) → get job s.entries ≡ some (tz, id) → Armed s job tz id
    pub owned :
        (tz : String) (c : Cron) (id : ℕ) (spec job : String)
        → get tz s.crons ≡ some c
        → lookup c id ≡ some (spec, job)
        → get job s.entries ≡ some (tz, id)
    pub distinct : Distinct s.entries

  module _ (s : Scheduler lib) (v : IsConsistent s) (job tz : String) (id : ℕ) (c : Cron)
      (spec : String) (on_record : get job s.entries ≡ some (tz, id))
      (present : get tz s.crons ≡ some c) (holds : lookup c id ≡ some (spec, job)) where
    abbrev without : Scheduler lib
    without = record s { crons = put tz (remove id c) s.crons; entries = del job s.entries }

    without-Armed :
        (j z : String) (i : ℕ) → get j without.entries ≡ some (z, i) → Armed without j z i
    without-Armed j z i e = elim (Bool-cases (tz == z)) [
      | inl same ↦
          let moved : z ≡ tz = sym ((==_iff tz z).0 same) in
          record {
            cron = remove id c;
            spec = a.spec;
            present = ground (arith, get-put tz z (remove id c) s.crons);
            holds = ground (
              arith,
              lib.lookup-remove id i c,
              ==_iff id i,
              a.present,
              a.holds,
              get-del job j s.entries,
              ==_iff job j,
            );
          }
      | inr other ↦ record {
        cron = a.cron;
        spec = a.spec;
        present = ground (arith, get-put tz z (remove id c) s.crons, a.present);
        holds = a.holds;
      }
    ]
      where
        kept : get j s.entries ≡ some (z, i)
        kept = ground (arith, get-del job j s.entries)

        a : Armed s j z i
        a = v.armed j z i kept

    without-Owned :
        (z : String) (c' : Cron) (i : ℕ) (spec' j : String)
        → get z without.crons ≡ some c'
        → lookup c' i ≡ some (spec', j)
        → get j without.entries ≡ some (z, i)
    without-Owned z c' i spec' j p h = elim (Bool-cases (tz == z)) [
      | inl same ↦
          let moved : z ≡ tz = sym ((==_iff tz z).0 same) in
          let old : lookup c i ≡ some (spec', j) =
            ground (arith, lib.lookup-remove id i c, get-put tz z (remove id c) s.crons) in
          ground (
            arith,
            lib.lookup-remove id i c,
            get-put tz z (remove id c) s.crons,
            v.owned tz c i spec' j present old,
            get-del job j s.entries,
            ==_iff job j,
            ==_iff id i,
          )
      | inr other ↦
          let old = v.owned z c' i spec' j (ground (arith, get-put tz z (remove id c) s.crons)) h in
          ground (arith, old, get-del job j s.entries, ==_iff job j, ==_iff tz z)
    ]

    plan-without : (j : String) → plan without j ≡ (if job == j then none else plan s j)
    unfolding plan
    plan-without j = elim (Bool-cases (job == j)) [
      | inl same ↦ rw (get-del job j s.entries, same)
      | inr other ↦ rw (get-del job j s.entries, other) (plan_kept other (get j s.entries) refl)
    ]
      where
        plan_kept :
            (job == j) ≡ false
            → (e : Option Entry) → get j s.entries ≡ e
            → plan_entry without.crons e ≡ plan_entry s.crons e
        plan_kept other none e = refl
        plan_kept other (some (z, i)) e =
            let a = v.armed j z i e in
            ground (
              arith,
              get-put tz z (remove id c) s.crons,
              ==_iff tz z,
              lib.lookup-remove id i c,
              ==_iff id i,
              a.present,
              a.holds,
              ==_iff job j,
            )

  -- `remove_entry` of the entry on record takes its job out of the plan, and nothing else.
  pub record Removed (s : Scheduler lib) (job : String) (r : Applied (Scheduler lib)) : Type 0 where
    pub state : Scheduler lib
    pub returns : r ≡ applied state
    pub consistent : IsConsistent state
    pub entries : (j : String) → get j state.entries ≡ (if job == j then none else get j s.entries)
    pub plan_lem : (j : String) → plan state j ≡ (if job == j then none else plan s j)

  pub remove_entry-Removed :
      (s : Scheduler lib) (job : String) (e : Entry)
      → IsConsistent s
      → get job s.entries ≡ some e
      → Removed s job (remove_entry lib job e s)
  unfolding remove_entry
  remove_entry-Removed s job (tz, id) v e =
      let a = v.armed job tz id e in
      record {
        state = without s v job tz id a.cron a.spec e a.present a.holds;
        returns = rw (a.present, remove_entry);
        consistent = record {
          armed = without-Armed s v job tz id a.cron a.spec e a.present a.holds;
          owned = without-Owned s v job tz id a.cron a.spec e a.present a.holds;
          distinct = del-Distinct job s.entries v.distinct;
        };
        entries = λ j. get-del job j s.entries;
        plan_lem = plan-without s v job tz id a.cron a.spec e a.present a.holds;
      }

  pub drop_existing-Removed :
      (s : Scheduler lib) (job : String) → IsConsistent s → Removed s job (drop_existing lib job s)
  unfolding drop_existing plan
  drop_existing-Removed s job v = elim (Option-cases (get job s.entries)) [
    | inl absent ↦ record {
      state = s;
      returns = rw (absent, drop_existing);
      consistent = v;
      entries = λ j. ground (arith, ==_iff job j);
      plan_lem = λ j. ground (arith, ==_iff job j);
    }
    | inr (e, present) ↦ rw (present, drop_existing) (remove_entry-Removed s job e v present)
  ]
