-- ===== src/Scheduler/Running.antt =====
-- Which of the cron instances of agent/internal/scheduler/scheduler.go fire: those that `Start`
-- found. `Apply` makes instances and never starts one.
use Prim.Native.String.{String}
use cron_compose.Prelude.{
  string_eq, ==_iff, ◌≡◌, refl, ◌∙◌, inl, inr, Bool, true, false, List, [], ◌∷◌, Option, none, some,
  Option-cases, if◌then◌else◌, arith,
}
use cron_compose.Prelude.Map.{get, put, has, get-put}
use cron_compose.Scheduler.Cron.{CronLib}
use cron_compose.Scheduler.Plan.{plan, IsConsistent}
use cron_compose.Scheduler.Sync.{Applies, apply-Applies}
use cron_compose.Scheduler.Started.{start_all-IsConsistent}
use cron_compose.Scheduler.{
  Scheduler, JobDef, Entry, Applied, applied, refused, crashed, ◌>>=◌, want_of, remove_entry,
  remove_absent, cron_for, add_entry, drop_existing, replace_entry, replace_all, apply, each_cron,
  start_all,
}

module _ (lib : CronLib) where
  open lib use {Cron, new, lookup, add_func, remove, start, running}

  abbrev runs : Option Cron → Bool
  runs none = false
  runs (some c) = running c

  -- Whether the entries of a timezone fire.
  unfoldable pub is_running : Scheduler lib → String → Bool
  is_running s tz = runs (get tz s.crons)

  abbrev Keeps : Scheduler lib → Applied (Scheduler lib) → Type 0
  Keeps s (applied s') = (tz : String) → is_running s' tz ≡ is_running s tz
  Keeps s (refused s') = (tz : String) → is_running s' tz ≡ is_running s tz
  Keeps s crashed = Unit {0}

  then_Keeps :
      (s : Scheduler lib) (r : Applied (Scheduler lib))
      (f : Scheduler lib → Applied (Scheduler lib))
      → Keeps s r
      → ((s1 : Scheduler lib) → Keeps s1 (f s1))
      → Keeps s (r >>= f)
  then_Keeps s (applied s1) f k g = Keeps-trans (f s1) (g s1)
    where
      Keeps-trans : (r : Applied (Scheduler lib)) → Keeps s1 r → Keeps s r
      Keeps-trans (applied s2) h = λ tz. h tz ∙ k tz
      Keeps-trans (refused s2) h = λ tz. h tz ∙ k tz
      Keeps-trans crashed h = tt
  then_Keeps s (refused s1) f k g = k
  then_Keeps s crashed f k g = tt

  -- Putting another instance for a timezone that is running, or not, as the one before.
  put-runs :
      (tz z : String) (c c' : Cron) (m : List (String × Cron))
      → get tz m ≡ some c
      → running c' ≡ running c
      → runs (get z (put tz c' m)) ≡ runs (get z m)
  put-runs tz z c c' m p h = ground (arith, get-put tz z c' m, ==_iff tz z)

  remove_entry-Keeps :
      (job : String) (e : Entry) (s : Scheduler lib) → Keeps s (remove_entry lib job e s)
  unfolding remove_entry is_running
  remove_entry-Keeps job (tz, id) s = elim (Option-cases (get tz s.crons)) [
    | inl absent ↦ rw (absent, remove_entry) tt
    | inr (c, p) ↦
        rw (p, remove_entry)
          (λ z. put-runs tz z c (remove id c) s.crons p (lib.running-remove id c))
  ]

  drop_existing-Keeps : (job : String) (s : Scheduler lib) → Keeps s (drop_existing lib job s)
  unfolding drop_existing
  drop_existing-Keeps job s = elim (Option-cases (get job s.entries)) [
    | inl absent ↦ rw (absent, drop_existing) (λ tz. refl)
    | inr (e, p) ↦ rw (p, drop_existing) (remove_entry-Keeps job e s)
  ]

  add_entry-Keeps :
      (j : JobDef) (s s1 : Scheduler lib) (c : Cron)
      → get j.timezone s1.crons ≡ some c
      → ((tz : String) → is_running s1 tz ≡ is_running s tz)
      → Keeps s (add_entry lib j (c, s1))
  unfolding add_entry is_running
  add_entry-Keeps j s s1 c p k = elim (Option-cases (add_func j.schedule_cron j.id c)) [
    | inl bad ↦ rw (bad, add_entry) k
    | inr ((c', id), added) ↦
        rw (added, add_entry)
          (λ z.
            put-runs j.timezone z c c' s1.crons p (lib.running-add_func _ _ c c' id added) ∙ k z)
  ]

  add-Keeps :
      (j : JobDef) (s : Scheduler lib) → Keeps s (add_entry lib j (cron_for lib j.timezone s))
  unfolding cron_for is_running
  add-Keeps j s = elim (Option-cases (get j.timezone s.crons)) [
    | inl absent ↦
        rw (absent, cron_for)
          (add_entry-Keeps j s _ (new j.timezone)
            (ground (
              arith,
              get-put j.timezone j.timezone (new j.timezone) s.crons,
              ==_iff j.timezone j.timezone,
            ))
            (λ z. ground (
              arith,
              get-put j.timezone z (new j.timezone) s.crons,
              ==_iff j.timezone z,
              lib.running-new j.timezone,
            )))
    | inr (c, p) ↦ rw (p, cron_for) (add_entry-Keeps j s s c p (λ z. refl))
  ]

  add_if-Keeps :
      (b : Bool) (j : JobDef) (s : Scheduler lib)
      → Keeps s (if b then add_entry lib j (cron_for lib j.timezone s) else applied s)
  add_if-Keeps true j s = add-Keeps j s
  add_if-Keeps false j s = λ tz. refl

  replace_entry-Keeps : (j : JobDef) (s : Scheduler lib) → Keeps s (replace_entry lib j s)
  unfolding replace_entry
  replace_entry-Keeps j s =
      then_Keeps s (drop_existing lib j.id s) _ (drop_existing-Keeps j.id s)
        (λ s1. add_if-Keeps j.enabled j s1)

  replace_all-Keeps :
      (w : List (String × JobDef)) (s : Scheduler lib) → Keeps s (replace_all lib w s)
  unfolding replace_all
  replace_all-Keeps [] s = λ tz. refl
  replace_all-Keeps ((id, j) ∷ w) s =
      then_Keeps s (replace_entry lib j s) _ (replace_entry-Keeps j s) (replace_all-Keeps w)

  remove_if-Keeps :
      (b : Bool) (job : String) (e : Entry) (s : Scheduler lib)
      → Keeps s (if b then applied s else remove_entry lib job e s)
  remove_if-Keeps true job e s = λ tz. refl
  remove_if-Keeps false job e s = remove_entry-Keeps job e s

  remove_absent-Keeps :
      (w : List (String × JobDef)) (es : List (String × Entry)) (s : Scheduler lib)
      → Keeps s (remove_absent lib w es s)
  unfolding remove_absent
  remove_absent-Keeps w [] s = λ tz. refl
  remove_absent-Keeps w ((id, e) ∷ es) s =
      then_Keeps s (if has id w then applied s else remove_entry lib id e s) _
        (remove_if-Keeps (has id w) id e s) (remove_absent-Keeps w es)

  apply-Keeps : (jobs : List JobDef) (s : Scheduler lib) → Keeps s (apply lib jobs s)
  unfolding apply
  apply-Keeps jobs s =
      then_Keeps s (remove_absent lib (want_of jobs) s.entries s) _
        (remove_absent-Keeps (want_of jobs) s.entries s) (replace_all-Keeps (want_of jobs))

  running-start_all :
      (m : List (String × Cron)) (tz : String) → runs (get tz (each_cron lib start m)) ≡ has tz m
  unfolding each_cron get has
  running-start_all [] tz = refl
  running-start_all ((z, c) ∷ m) tz = ground (arith, lib.running-start c, running-start_all m tz)

  -- `Apply` over and over, whatever error it returns; `none` is a crash.
  unfoldable pub apply_each : List (List JobDef) → Scheduler lib → Option (Scheduler lib)
  apply_each [] s = some s
  apply_each (jobs ∷ rest) s = elim (apply lib jobs s) [
    | applied s' ↦ apply_each rest s'
    | refused s' ↦ apply_each rest s'
    | crashed ↦ none
  ]

  record AppliedEach (s : Scheduler lib) (o : Option (Scheduler lib)) : Type 0 where
    state : Scheduler lib
    returns : o ≡ some state
    same : (tz : String) → is_running state tz ≡ is_running s tz

  apply_each-AppliedEach :
      (syncs : List (List JobDef)) (s : Scheduler lib)
      → IsConsistent lib s
      → AppliedEach s (apply_each syncs s)
  unfolding apply_each
  apply_each-AppliedEach [] s v = record { state = s; returns = refl; same = λ tz. refl }
  apply_each-AppliedEach (jobs ∷ rest) s v =
      by_result (apply-Applies lib jobs s v) (λ s1 v1. apply_each-AppliedEach rest s1 v1)
    where
      by_result :
          Applies lib jobs s (apply lib jobs s)
          → ((s1 : Scheduler lib) → IsConsistent lib s1 → AppliedEach s1 (apply_each rest s1))
          → AppliedEach s (apply_each (jobs ∷ rest) s)
      by_result (Applies.done s1 e v1 q) next =
          let r = next s1 v1 in
          record {
            state = r.state;
            returns = rw (e, apply_each) r.returns;
            same = λ tz. r.same tz ∙ (rw e at (apply-Keeps jobs s)) tz;
          }
      by_result (Applies.bad_schedule s1 e v1 u q) next =
          let r = next s1 v1 in
          record {
            state = r.state;
            returns = rw (e, apply_each) r.returns;
            same = λ tz. r.same tz ∙ (rw e at (apply-Keeps jobs s)) tz;
          }

  -- Whether a job fires, given what it is scheduled for and the timezones whose entries fire.
  abbrev pub fires : (String → Bool) → Option (String × String) → Bool
  fires in_tz none = false
  fires in_tz (some (tz, spec)) = in_tz tz

  fires_lem :
      (f g : String → Bool) (o : Option (String × String))
      → ((tz : String) → f tz ≡ g tz)
      → fires f o ≡ fires g o
  fires_lem f g none h = refl
  fires_lem f g (some (tz, spec)) h = h tz

  -- However often Apply follows Start on a consistent scheduler, with an error or without, none of the
  -- calls crashes, and of the jobs that are scheduled in the end exactly those fire whose timezone had
  -- a cron instance when Start was called: a job of any other timezone does not.
  pub apply_after_start :
      (syncs : List (List JobDef)) (s : Scheduler lib)
      → IsConsistent lib s
      → (s' : Scheduler lib) × (apply_each syncs (start_all lib s) ≡ some s')
        × ((job : String)
            → fires (is_running s') (plan lib s' job)
              ≡ fires (λ tz. has tz s.crons) (plan lib s' job))
  unfolding start_all is_running
  apply_after_start syncs s v =
      let r = apply_each-AppliedEach syncs (start_all lib s) (start_all-IsConsistent lib s v) in
      (
        r.state,
        r.returns,
        λ job.
            fires_lem _ _ (plan lib r.state job) (λ tz. r.same tz ∙ running-start_all s.crons tz),
      )
