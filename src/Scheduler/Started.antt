-- ===== src/Scheduler/Started.antt =====
-- `Start` of agent/internal/scheduler/scheduler.go on a consistent scheduler.
use Prim.Native.String.{String}
use cron_compose.Prelude.{
  string_eq, ◌≡◌, refl, sym, ap, ◌∙◌, inl, inr, List, [], ◌∷◌, none, some, Option-cases, arith,
}
use cron_compose.Prelude.Map.{get}
use cron_compose.Scheduler.Cron.{CronLib}
use cron_compose.Scheduler.Plan.{IsConsistent}
use cron_compose.Scheduler.{Scheduler, each_cron, start_all}

module _ (lib : CronLib) where
  open lib use {Cron, new, lookup, add_func, remove, start, running}

  get-each_cron :
      (tz : String) (m : List (String × Cron))
      → get tz (each_cron lib start m) ≡ elim (get tz m) [ none ↦ none | some c ↦ some (start c) ]
  unfolding each_cron get
  get-each_cron tz [] = refl
  get-each_cron tz ((z, c) ∷ m) = ground (arith, get-each_cron tz m)

  started_one :
      (tz : String) (m : List (String × Cron)) (c : Cron)
      → get tz (each_cron lib start m) ≡ some c
      → (c0 : Cron) × (get tz m ≡ some c0) × (start c0 ≡ c)
  started_one tz m c e = elim (Option-cases (get tz m)) [
    | inl absent ↦ absurd (ground (arith, absent, e, get-each_cron tz m))
    | inr (c0, p) ↦ (c0, p, ground (arith, p, e, get-each_cron tz m))
  ]

  -- `Start` keeps what is armed, and by which entries.
  pub start_all-IsConsistent :
      (s : Scheduler lib) → IsConsistent lib s → IsConsistent lib (start_all lib s)
  unfolding start_all
  start_all-IsConsistent s v = record {
    armed = λ job tz id e.
        let a = v.armed job tz id e in
        record {
          cron = start a.cron;
          spec = a.spec;
          present = ground (arith, a.present, get-each_cron tz s.crons);
          holds = lib.lookup-start id a.cron ∙ a.holds;
        };
    owned = λ tz c id spec job p h.
        let (c0, p0, same) = started_one tz s.crons c p in
        v.owned tz c0 id spec job p0
          (sym (lib.lookup-start id c0) ∙ (ap (λ c'. lookup c' id) same ∙ h));
    distinct = v.distinct;
  }
