-- ===== src/Runtime/Jobs/Merge.antt =====
-- The job set of agent/internal/runtime/sync.go as a map from ids to definitions.
use Prim.Native.String.{String}
use cron_compose.Prelude.{
  string_eq, ◌==◌, ==_iff, ◌≡◌, refl, Bool, true, false, List, [], ◌∷◌, Option, none, some,
  if◌then◌else◌, arith, All,
}
use cron_compose.Prelude.Map.{get, put, del, Distinct, put-Distinct, del-Distinct, get-put, get-del}
use cron_compose.Scheduler as Sched
use cron_compose.Scheduler.{want_of, want_from}
use cron_compose.Store.{JobDef}
use cron_compose.Runtime.Messages.{JobDefMsg, SyncJobs}
use cron_compose.Runtime.Jobs.{
  proto_to_store, to_scheduler_job, to_scheduler_jobs, upsert_all, delete_all, merge, values,
  add_cached,
}

-- Each definition stands under its own id, and no id stands twice.
pub record IsJobSet (jobs : List (String × JobDef)) : Type 0 where
  pub keyed : All (λ e. e.0 ≡ e.1.id) jobs
  pub distinct : Distinct jobs

put-IsJobSet :
    (j : JobDef) (jobs : List (String × JobDef)) → IsJobSet jobs → IsJobSet (put j.id j jobs)
unfolding put
put-IsJobSet j jobs h = record {
  keyed = keyed_put jobs h.keyed;
  distinct = put-Distinct j.id j jobs h.distinct;
}
  where
    keyed_put :
        (m : List (String × JobDef))
        → All (λ e. e.0 ≡ e.1.id) m
        → All (λ e. e.0 ≡ e.1.id) (put j.id j m)
    keyed_put [] k = (refl, tt)
    keyed_put ((id, d) ∷ m) k = ground (arith, keyed_put m k.1)

del-IsJobSet :
    (id : String) (jobs : List (String × JobDef)) → IsJobSet jobs → IsJobSet (del id jobs)
unfolding del
del-IsJobSet id jobs h = record {
  keyed = keyed_del jobs h.keyed;
  distinct = del-Distinct id jobs h.distinct;
}
  where
    keyed_del :
        (m : List (String × JobDef))
        → All (λ e. e.0 ≡ e.1.id) m
        → All (λ e. e.0 ≡ e.1.id) (del id m)
    keyed_del [] k = tt
    keyed_del ((i, d) ∷ m) k = ground (arith, keyed_del m k.1)

upsert_all-IsJobSet :
    (ds : List JobDefMsg) (jobs : List (String × JobDef))
    → IsJobSet jobs
    → IsJobSet (upsert_all ds jobs)
unfolding upsert_all proto_to_store
upsert_all-IsJobSet [] jobs h = h
upsert_all-IsJobSet (d ∷ ds) jobs h =
    upsert_all-IsJobSet ds _ (put-IsJobSet (proto_to_store d) jobs h)

delete_all-IsJobSet :
    (ids : List String) (jobs : List (String × JobDef))
    → IsJobSet jobs
    → IsJobSet (delete_all ids jobs)
unfolding delete_all
delete_all-IsJobSet [] jobs h = h
delete_all-IsJobSet (id ∷ ids) jobs h = delete_all-IsJobSet ids _ (del-IsJobSet id jobs h)

pub merge-IsJobSet :
    (s : SyncJobs) (jobs : List (String × JobDef)) → IsJobSet jobs → IsJobSet (merge s jobs)
unfolding merge
merge-IsJobSet s jobs h =
    delete_all-IsJobSet s.delete _ (upsert_all-IsJobSet s.upsert _ (start s.full_snapshot))
  where
    start : (full : Bool) → IsJobSet (if full then [] else jobs)
    start true = record { keyed = tt; distinct = tt }
    start false = h

pub add_cached-IsJobSet :
    (cached : List JobDef) (jobs : List (String × JobDef))
    → IsJobSet jobs
    → IsJobSet (add_cached cached jobs)
unfolding add_cached
add_cached-IsJobSet [] jobs h = h
add_cached-IsJobSet (j ∷ cached) jobs h = add_cached-IsJobSet cached _ (put-IsJobSet j jobs h)

-- The last definition of a list with this id, read as the store reads it, or else `base`.
abbrev pub latest : String → List JobDefMsg → Option JobDef → Option JobDef
latest id [] base = base
latest id (d ∷ ds) base = latest id ds (if d.id == id then some (proto_to_store d) else base)

abbrev pub mentions : String → List String → Bool
mentions id [] = false
mentions id (x ∷ xs) = if x == id then true else mentions id xs

-- What a sync says of one id: a deletion beats a definition, a later definition an earlier one, and
-- what it does not mention stays as it was, or goes if the sync is a full snapshot.
abbrev pub said : SyncJobs → String → Option JobDef → Option JobDef
said s id old =
    if mentions id s.delete
    then none
    else latest id s.upsert (if s.full_snapshot then none else old)

get-upsert_all :
    (id : String) (ds : List JobDefMsg) (jobs : List (String × JobDef))
    → get id (upsert_all ds jobs) ≡ latest id ds (get id jobs)
unfolding upsert_all
get-upsert_all id [] jobs = refl
get-upsert_all id (d ∷ ds) jobs =
    rw
      (
        get-upsert_all id ds (put d.id (proto_to_store d) jobs),
        get-put d.id id (proto_to_store d) jobs,
      )
      refl

get-delete_all :
    (id : String) (ids : List String) (jobs : List (String × JobDef))
    → get id (delete_all ids jobs) ≡ (if mentions id ids then none else get id jobs)
unfolding delete_all
get-delete_all id [] jobs = refl
get-delete_all id (x ∷ ids) jobs =
    ground (arith, get-delete_all id ids (del x jobs), get-del x id jobs)

pub get-merge :
    (s : SyncJobs) (jobs : List (String × JobDef)) (id : String)
    → get id (merge s jobs) ≡ said s id (get id jobs)
unfolding merge get
get-merge s jobs id =
    rw
      (
        get-delete_all id s.delete (upsert_all s.upsert (if s.full_snapshot then [] else jobs)),
        get-upsert_all id s.upsert (if s.full_snapshot then [] else jobs),
      )
      (by_kind s.full_snapshot)
  where
    by_kind :
        (full : Bool)
        → (if mentions id s.delete
            then none
            else latest id s.upsert (get id (if full then [] else jobs)))
          ≡ (if mentions id s.delete
              then none
              else latest id s.upsert (if full then none else get id jobs))
    by_kind true = refl
    by_kind false = refl

-- The scheduler's view of the job set has the same ids.
abbrev pub scheduler_view : Option JobDef → Option Sched.JobDef → Option Sched.JobDef
scheduler_view none old = old
scheduler_view (some j) old = some (to_scheduler_job j)

get-want_from :
    (jobs : List (String × JobDef)) (w : List (String × Sched.JobDef)) (id : String)
    → IsJobSet jobs
    → get id (want_from w (to_scheduler_jobs (values jobs)))
      ≡ scheduler_view (get id jobs) (get id w)
unfolding get want_from to_scheduler_jobs to_scheduler_job values
get-want_from [] w id h = refl
get-want_from ((i, j) ∷ jobs) w id h = ground (
  arith,
  get-want_from jobs (put j.id (to_scheduler_job j) w) id
      (record { keyed = h.keyed.1; distinct = h.distinct.1 }),
  get-put j.id id (to_scheduler_job j) w,
  h.keyed.0,
  h.distinct.0,
  ==_iff i id,
  ==_iff j.id id,
)

pub get-want_of :
    (jobs : List (String × JobDef)) (id : String)
    → IsJobSet jobs
    → get id (want_of (to_scheduler_jobs (values jobs))) ≡ scheduler_view (get id jobs) none
unfolding get
get-want_of jobs id h = get-want_from jobs [] id h

-- Loading what was saved gives the same map.
get-add_cached :
    (jobs m : List (String × JobDef)) (id : String)
    → IsJobSet jobs
    → get id (add_cached (values jobs) m)
      ≡ (elim (get id jobs) [ none ↦ get id m | some j ↦ some j ])
unfolding get add_cached values
get-add_cached [] m id h = refl
get-add_cached ((i, j) ∷ jobs) m id h = ground (
  arith,
  get-add_cached jobs (put j.id j m) id (record { keyed = h.keyed.1; distinct = h.distinct.1 }),
  get-put j.id id j m,
  h.keyed.0,
  h.distinct.0,
  ==_iff i id,
  ==_iff j.id id,
)

pub get-add_cached_empty :
    (jobs : List (String × JobDef)) (id : String)
    → IsJobSet jobs
    → get id (add_cached (values jobs) []) ≡ get id jobs
unfolding get
get-add_cached_empty jobs id h = ground (arith, get-add_cached jobs [] id h)
