-- ===== src/Scheduler/Replace.antt =====
-- The second loop of `Apply` in agent/internal/scheduler/scheduler.go, over the wanted jobs.
use Prim.Native.String.{String}
use cron_compose.Prelude.{
  string_eq, ◌==◌, ==_iff, ◌≡◌, refl, ◌⊎◌, Bool, true, false, List, [], ◌∷◌, Option, none, some,
  if◌then◌else◌, arith, All,
}
use cron_compose.Prelude.Map.{get, put, Distinct, put-Distinct}
use cron_compose.Scheduler.Cron.{CronLib}
use cron_compose.Scheduler.Plan.{plan, IsConsistent, drop_existing-Removed}
use cron_compose.Scheduler.Arm.{Added, add_entry-Added}
use cron_compose.Scheduler.{
  Scheduler, JobDef, Applied, applied, refused, ◌>>=◌, want_from, cron_for, add_entry,
  replace_entry, replace_all,
}

-- What a job definition asks for: a disabled job is not scheduled.
abbrev pub asked : JobDef → Option (String × String)
asked j = if j.enabled then some (j.timezone, j.schedule_cron) else none

abbrev pub asked_by : Option JobDef → Option (String × String) → Option (String × String)
asked_by none old = old
asked_by (some j) old = asked j

-- Each definition stands under its own id, and no id stands twice.
abbrev pub IsKeyed : List (String × JobDef) → Type 0
IsKeyed w = All (λ e. e.0 ≡ e.1.id) w

put-IsKeyed : (j : JobDef) (w : List (String × JobDef)) → IsKeyed w → IsKeyed (put j.id j w)
unfolding put
put-IsKeyed j [] h = (refl, tt)
put-IsKeyed j ((id, d) ∷ w) h = ground (arith, put-IsKeyed j w h.1)

pub want_from-IsKeyed :
    (jobs : List JobDef) (w : List (String × JobDef)) → IsKeyed w → IsKeyed (want_from w jobs)
unfolding want_from
want_from-IsKeyed [] w h = h
want_from-IsKeyed (j ∷ jobs) w h = want_from-IsKeyed jobs (put j.id j w) (put-IsKeyed j w h)

pub want_from-Distinct :
    (jobs : List JobDef) (w : List (String × JobDef)) → Distinct w → Distinct (want_from w jobs)
unfolding want_from
want_from-Distinct [] w h = h
want_from-Distinct (j ∷ jobs) w h = want_from-Distinct jobs (put j.id j w) (put-Distinct j.id j w h)

module _ (lib : CronLib) where
  -- A wanted, enabled job whose expression does not parse.
  pub record Unparsable (w : List (String × JobDef)) : Type 0 where
    pub culprit : JobDef
    pub wanted : get culprit.id w ≡ some culprit
    pub enabled : culprit.enabled ≡ true
    pub bad : lib.parses culprit.schedule_cron ≡ false

  Unparsable-head :
      (id : String) (j : JobDef) (w : List (String × JobDef))
      → id ≡ j.id
      → j.enabled ≡ true
      → lib.parses j.schedule_cron ≡ false
      → Unparsable ((id, j) ∷ w)
  unfolding get
  Unparsable-head id j w key on bad = record {
    culprit = j;
    wanted = ground (arith, ==_iff id j.id, key);
    enabled = on;
    bad = bad;
  }

  Unparsable-cons :
      (id : String) (j : JobDef) (w : List (String × JobDef))
      → get id w ≡ none
      → Unparsable w
      → Unparsable ((id, j) ∷ w)
  unfolding get
  Unparsable-cons id j w alone u = record {
    culprit = u.culprit;
    wanted = ground (arith, ==_iff id u.culprit.id, u.wanted, alone);
    enabled = u.enabled;
    bad = u.bad;
  }

  -- Where the loop over the wanted jobs returns, by the plan `p` it began with.
  pub data Replaced (w : List (String × JobDef)) (p : String → Option (String × String))
      (r : Applied (Scheduler lib)) : Type 0 where
    done :
        (s' : Scheduler lib)
        → r ≡ applied s'
        → IsConsistent lib s'
        → ((job : String) → plan lib s' job ≡ asked_by (get job w) (p job))
        → Replaced w p r
    bad_schedule :
        (s' : Scheduler lib)
        → r ≡ refused s'
        → IsConsistent lib s'
        → Unparsable w
        → ((job : String)
            → (plan lib s' job ≡ p job)
              ⊎ ((plan lib s' job ≡ asked_by (get job w) (p job)) ⊎ (plan lib s' job ≡ none)))
        → Replaced w p r

  module _ (j : JobDef) (s s1 : Scheduler lib)
      (dropped : (job : String)
        → plan lib s1 job ≡ (if j.id == job then none else plan lib s job)) where
    enabled-Replaced :
        {r : Applied (Scheduler lib)}
        → j.enabled ≡ true
        → Added lib s1 j r
        → Replaced ((j.id, j) ∷ []) (plan lib s) r
    unfolding get
    enabled-Replaced on (Added.done s' e v p) =
        done s' e v λ job. ground (arith, p job, dropped job)
    enabled-Replaced on (Added.bad_schedule s' e v bad p) =
        bad_schedule s' e v (Unparsable-head j.id j [] refl on bad)
          λ job. ground (arith, p job, dropped job)

    disabled-Replaced :
        j.enabled ≡ false
        → IsConsistent lib s1
        → Replaced ((j.id, j) ∷ []) (plan lib s) (applied s1)
    unfolding get
    disabled-Replaced off v = done s1 refl v λ job. ground (arith, dropped job)

    by_enabled :
        (b : Bool)
        → j.enabled ≡ b
        → IsConsistent lib s1
        → get j.id s1.entries ≡ none
        → Replaced
            ((j.id, j) ∷ [])
            (plan lib s)
            (if b then add_entry lib j (cron_for lib j.timezone s1) else applied s1)
    by_enabled true on v fresh = enabled-Replaced on (add_entry-Added lib s1 j fresh v)
    by_enabled false off v fresh = disabled-Replaced off v

  replace_entry-Replaced :
      (j : JobDef) (s : Scheduler lib)
      → IsConsistent lib s
      → Replaced ((j.id, j) ∷ []) (plan lib s) (replace_entry lib j s)
  unfolding replace_entry
  replace_entry-Replaced j s v =
      let d = drop_existing-Removed lib s j.id v in
      rw d.returns (
        by_enabled j s d.state d.plan_lem j.enabled refl d.consistent
          (ground (arith, d.entries j.id, ==_iff j.id j.id)))

  -- Going on with the rest of the jobs after the first one.
  module _ (id : String) (j : JobDef) (w : List (String × JobDef))
      (p : String → Option (String × String)) (s1 : Scheduler lib) (alone : get id w ≡ none)
      (first : (job : String) → plan lib s1 job ≡ asked_by (get job ((id, j) ∷ [])) (p job)) where
    then_rest :
        {r : Applied (Scheduler lib)} → Replaced w (plan lib s1) r → Replaced ((id, j) ∷ w) p r
    unfolding get
    then_rest (done s' e v q) =
        done s' e v λ job. ground (arith, q job, first job, ==_iff id job, alone)
    then_rest (bad_schedule s' e v u q) =
        bad_schedule s' e v (Unparsable-cons id j w alone u)
          λ job. ground (arith, q job, first job, ==_iff id job, alone)

  Unparsable-only :
      (id : String) (j : JobDef) (w : List (String × JobDef))
      → id ≡ j.id
      → Unparsable ((j.id, j) ∷ [])
      → Unparsable ((id, j) ∷ w)
  unfolding get
  Unparsable-only id j w key u = record {
    culprit = u.culprit;
    wanted = ground (arith, ==_iff id u.culprit.id, u.wanted, key);
    enabled = u.enabled;
    bad = u.bad;
  }

  then_all :
      (id : String) (j : JobDef) (w : List (String × JobDef))
      (p : String → Option (String × String)) {r : Applied (Scheduler lib)}
      → id ≡ j.id
      → get id w ≡ none
      → ((s : Scheduler lib) → IsConsistent lib s → Replaced w (plan lib s) (replace_all lib w s))
      → Replaced ((j.id, j) ∷ []) p r
      → Replaced ((id, j) ∷ w) p (r >>= replace_all lib w)
  unfolding get
  then_all id j w p key alone rest (done s1 e v q) =
      rw e (then_rest id j w p s1 alone (λ job. rw key (q job)) (rest s1 v))
  then_all id j w p key alone rest (bad_schedule s1 e v u q) = rw e (
      bad_schedule s1 refl v (Unparsable-only id j w key u)
        λ job. ground (arith, q job, key, alone, ==_iff id job))

  pub replace_all-Replaced :
      (w : List (String × JobDef)) (s : Scheduler lib)
      → IsKeyed w
      → Distinct w
      → IsConsistent lib s
      → Replaced w (plan lib s) (replace_all lib w s)
  unfolding replace_all
  replace_all-Replaced [] s k d v = done s refl v λ job. unfold get in refl
  replace_all-Replaced ((id, j) ∷ w) s k d v =
      then_all id j w (plan lib s) k.0 d.0 (λ s1 v1. replace_all-Replaced w s1 k.1 d.1 v1)
        (replace_entry-Replaced j s v)
