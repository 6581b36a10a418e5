-- ===== src/Scheduler.antt =====
-- agent/internal/scheduler/scheduler.go: the agent's local cron loops, one per timezone. The map
-- `want` is walked in the order of the first mention of each id, one of the orders that Go may
-- take.
pub mod Cron
pub mod Memory
pub mod Plan
pub mod Arm
pub mod Replace
pub mod Clear
pub mod Sync
pub mod Started
pub mod Running
mod Tests
use Prim.Native.String.{String}
use cron_compose.Prelude.{
  ℕ, string_eq, Bool, true, false, List, [], ◌∷◌, Option, none, some, if◌then◌else◌, not, map,
}
use cron_compose.Prelude.Map.{get, put, del, has}
use Cron.{CronLib}

pub record JobDef : Type 0 where
  pub id : String
  pub schedule_cron : String
  pub timezone : String
  pub enabled : Bool

-- The timezone whose instance holds the entry, and the entry's id there.
abbrev pub Entry : Type 0
Entry = String × ℕ

-- How a method on the scheduler returned: with nil, with an error in the state it had reached, or
-- with a crash, the call of a method on a nil `*cron.Cron`.
pub data Applied {ℓ} (S : Type ℓ) : Type ℓ where
  applied : S → Applied S
  refused : S → Applied S
  crashed : Applied S

infixl 5 ◌>>=◌
abbrev pub ◌>>=◌ {ℓ} : {S : Type ℓ} → Applied S → (S → Applied S) → Applied S
applied s >>= f = f s
refused s >>= f = refused s
crashed >>= f = crashed

-- `want[j.ID] = j` for each job in turn.
unfoldable pub want_from : List (String × JobDef) → List JobDef → List (String × JobDef)
want_from want [] = want
want_from want (j ∷ jobs) = want_from (put j.id j want) jobs

abbrev pub want_of : List JobDef → List (String × JobDef)
want_of jobs = want_from [] jobs

module _ (lib : CronLib) where
  open lib use {Cron, new, add_func, remove, start, stop}

  pub record Scheduler : Type 0 where
    pub crons : List (String × Cron)
    pub entries : List (String × Entry)

  abbrev pub empty : Scheduler
  empty = record { crons = []; entries = [] }

  -- `s.crons[e.tz].Remove(e.id); delete(s.entries, id)`
  unfoldable pub remove_entry : String → Entry → Scheduler → Applied Scheduler
  remove_entry id (tz, entry_id) s = elim (get tz s.crons) [
    | none ↦ crashed
    | some c ↦
        applied
          (record s { crons = put tz (remove entry_id c) s.crons; entries = del id s.entries })
  ]

  -- The first loop, over the entries as they stood before it.
  unfoldable pub remove_absent :
      List (String × JobDef) → List (String × Entry) → Scheduler → Applied Scheduler
  remove_absent want [] s = applied s
  remove_absent want ((id, e) ∷ es) s =
      (if has id want then applied s else remove_entry id e s) >>= remove_absent want es

  -- The instance of a timezone, made on first use.
  unfoldable pub cron_for : String → Scheduler → Cron × Scheduler
  cron_for tz s = elim (get tz s.crons) [
    | some c ↦ (c, s)
    | none ↦ (new tz, record s { crons = put tz (new tz) s.crons })
  ]

  pub add_entry : JobDef → Cron × Scheduler → Applied Scheduler
  add_entry j (c, s) = elim (add_func j.schedule_cron j.id c) [
    | none ↦ refused s
    | some (c', entry_id) ↦ applied (record s {
      crons = put j.timezone c' s.crons;
      entries = put j.id (j.timezone, entry_id) s.entries;
    })
  ]

  pub drop_existing : String → Scheduler → Applied Scheduler
  unfolding remove_entry
  drop_existing id s = elim (get id s.entries) [ none ↦ applied s | some e ↦ remove_entry id e s ]

  -- The body of the second loop.
  unfoldable pub replace_entry : JobDef → Scheduler → Applied Scheduler
  unfolding drop_existing add_entry cron_for
  replace_entry j s = do
    s' ← drop_existing j.id s
    if j.enabled then add_entry j (cron_for j.timezone s') else applied s'

  unfoldable pub replace_all : List (String × JobDef) → Scheduler → Applied Scheduler
  replace_all [] s = applied s
  replace_all ((id, j) ∷ want) s = replace_entry j s >>= replace_all want

  unfoldable pub apply : List JobDef → Scheduler → Applied Scheduler
  unfolding remove_absent replace_all
  apply jobs s = remove_absent (want_of jobs) s.entries s >>= replace_all (want_of jobs)

  unfoldable pub each_cron : (Cron → Cron) → List (String × Cron) → List (String × Cron)
  each_cron f [] = []
  each_cron f ((tz, c) ∷ m) = (tz, f c) ∷ each_cron f m

  unfoldable pub start_all : Scheduler → Scheduler
  unfolding each_cron
  start_all s = record s { crons = each_cron start s.crons }

  unfoldable pub stop_all : Scheduler → Scheduler
  unfolding each_cron
  stop_all s = record s { crons = each_cron stop s.crons }
