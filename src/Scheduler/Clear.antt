-- ===== src/Scheduler/Clear.antt =====
-- The first loop of `Apply` in agent/internal/scheduler/scheduler.go, over the entries whose job is
-- no longer wanted.
use Prim.Native.String.{String}
use cron_compose.Prelude.{
  string_eq, ◌==◌, ==_iff, ◌≡◌, ◌∙◌, refl, true, false, List, [], ◌∷◌, Option, none, some,
  Bool-cases, ◌&&◌, not, if◌then◌else◌, arith, inl, inr,
}
use cron_compose.Prelude.Map.{get, has, Distinct}
use cron_compose.Scheduler.Cron.{CronLib}
use cron_compose.Scheduler.Plan.{plan, IsConsistent, remove_entry-Removed}
use cron_compose.Scheduler.{Scheduler, JobDef, Entry, Applied, applied, remove_absent}

module _ (lib : CronLib) where
  -- After the loop over the old entries only wanted jobs are scheduled, as they were.
  pub record Cleared (w : List (String × JobDef)) (es : List (String × Entry)) (s : Scheduler lib)
      (r : Applied (Scheduler lib)) : Type 0 where
    pub state : Scheduler lib
    pub returns : r ≡ applied state
    pub consistent : IsConsistent lib state
    pub plan_lem :
        (job : String)
        → plan lib state job ≡ (if has job es && not (has job w) then none else plan lib s job)

  module _ (w : List (String × JobDef)) (id : String) (e : Entry) (es : List (String × Entry))
      (alone : get id es ≡ none) where
    get-rest :
        (i : String) (e' : Entry)
        → get i es ≡ some e'
        → (get i ((id, e) ∷ es) ≡ some e') × ((id == i) ≡ false)
    unfolding get
    get-rest i e' h = ground (arith, ==_iff id i, alone)

    get-first : get id ((id, e) ∷ es) ≡ some e
    unfolding get
    get-first = ground (arith, ==_iff id id)

    keeps :
        (p p' : Option (String × String)) (job : String)
        → has id w ≡ true
        → p' ≡ (if has job es && not (has job w) then none else p)
        → p' ≡ (if has job ((id, e) ∷ es) && not (has job w) then none else p)
    unfolding get has
    keeps p p' job wanted h = ground (arith, ==_iff id job, alone)

    drops :
        (p p' : Option (String × String)) (job : String)
        → has id w ≡ false
        → p' ≡ (if has job es && not (has job w) then none else (if id == job then none else p))
        → p' ≡ (if has job ((id, e) ∷ es) && not (has job w) then none else p)
    unfolding get has
    drops p p' job gone h = ground (arith, ==_iff id job, alone)

  pub remove_absent-Cleared :
      (w : List (String × JobDef)) (es : List (String × Entry)) (s : Scheduler lib)
      → Distinct es
      → ((id : String) (e : Entry) → get id es ≡ some e → get id s.entries ≡ some e)
      → IsConsistent lib s
      → Cleared w es s (remove_absent lib w es s)
  unfolding remove_absent
  remove_absent-Cleared w [] s d sub v = record {
    state = s;
    returns = refl;
    consistent = v;
    plan_lem = λ job. unfold has get in refl;
  }
  remove_absent-Cleared w ((id, e) ∷ es) s d sub v = elim (Bool-cases (has id w)) [
    | inl wanted ↦
        let sub' = λ (i : String) (e' : Entry) (h : get i es ≡ some e').
          sub i e' (get-rest w id e es d.0 i e' h).0 in
        let r = remove_absent-Cleared w es s d.1 sub' v in
        rw wanted (record {
          state = r.state;
          returns = r.returns;
          consistent = r.consistent;
          plan_lem = λ job. keeps w id e es d.0 (plan lib s job) _ job wanted (r.plan_lem job);
        })
    | inr gone ↦
        let f = remove_entry-Removed lib s id e v (sub id e (get-first w id e es d.0)) in
        let sub' = λ (i : String) (e' : Entry) (h : get i es ≡ some e').
          let (whole, other) = get-rest w id e es d.0 i e' h in
          f.entries i ∙ rw other (sub i e' whole) in
        let r = remove_absent-Cleared w es f.state d.1 sub' f.consistent in
        rw (gone, f.returns)
          (record {
            state = r.state;
            returns = r.returns;
            consistent = r.consistent;
            plan_lem = λ job.
                drops w id e es d.0 (plan lib s job) _ job gone
                  (r.plan_lem job ∙ rw (f.plan_lem job));
          })
  ]

  plan_absent :
      (s : Scheduler lib) (job : String) → get job s.entries ≡ none → plan lib s job ≡ none
  unfolding plan
  plan_absent s job e = rw e

  -- Over all entries: what stays scheduled is what is wanted.
  pub remove_absent_all :
      (w : List (String × JobDef)) (s : Scheduler lib) (job : String)
      (p' : Option (String × String))
      → p' ≡ (if has job s.entries && not (has job w) then none else plan lib s job)
      → p' ≡ (if has job w then plan lib s job else none)
  unfolding has
  remove_absent_all w s job p' h = ground (arith, plan_absent s job)
