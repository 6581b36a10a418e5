-- ===== src/Executor/Environment.antt =====
-- The environment that `buildEnv` of agent/internal/executor/command.go hands to a job.
use cron_compose.Prelude.{
  bytes_eq, ◌==◌, ==_iff, ◌≡◌, refl, ◌∙◌, List, [], ◌∷◌, Option, none, some, if◌then◌else◌, arith,
  Bytes,
}
use cron_compose.Prelude.Map.{get, put, get-put, Distinct, put-Distinct}
use cron_compose.Executor.Command.{Credential, cred_vars, put_all, set_entries, base_env, build_env}

-- The first value that is there.
abbrev pub first_of_two : Option Bytes → Option Bytes → Option Bytes
first_of_two (some v) o = some v
first_of_two none o = o

-- An empty value counts as none.
abbrev pub unless_empty : Option Bytes → Option Bytes
unless_empty none = none
unless_empty (some v) = if v == [] then none else some v

put_all-Distinct : (kvs m : List (Bytes × Bytes)) → Distinct m → Distinct (put_all kvs m)
unfolding put_all
put_all-Distinct [] m d = d
put_all-Distinct ((k, v) ∷ kvs) m d = put_all-Distinct kvs (put k v m) (put-Distinct k v m d)

get-put_all :
    (k : Bytes) (kvs m : List (Bytes × Bytes))
    → Distinct kvs
    → get k (put_all kvs m) ≡ first_of_two (get k kvs) (get k m)
unfolding put_all get
get-put_all k [] m d = refl
get-put_all k ((j, v) ∷ kvs) m d =
    get-put_all k kvs (put j v m) d.1 ∙ ground (arith, get-put j k v m, ==_iff j k, d.0)

set_entries_absent :
    (k : Bytes) (m : List (Bytes × Bytes)) → get k m ≡ none → get k (set_entries m) ≡ none
unfolding set_entries get
set_entries_absent k [] h = refl
set_entries_absent k ((j, v) ∷ m) h = ground (arith, set_entries_absent k m)

get-set_entries :
    (k : Bytes) (m : List (Bytes × Bytes))
    → Distinct m
    → get k (set_entries m) ≡ unless_empty (get k m)
unfolding set_entries get
get-set_entries k [] d = refl
get-set_entries k ((j, v) ∷ m) d =
    ground (arith, get-set_entries k m d.1, set_entries_absent k m, ==_iff j k, d.0)

base_env-Distinct : (getenv : Bytes → Bytes) → Distinct (base_env getenv)
unfolding base_env get
base_env-Distinct getenv = (refl, (refl, (refl, (refl, tt))))

-- A variable of the job's process has the job's own value if the job sets it, else that of the
-- user it runs as, else that of the agent's four base variables; a variable whose value comes out
-- empty is not set, and there are no others.
pub get-build_env :
    (getenv : Bytes → Bytes) (env_map : List (Bytes × Bytes)) (cred : Option Credential) (k : Bytes)
    → Distinct env_map
    → Distinct (cred_vars cred)
    → get k (build_env getenv env_map cred)
      ≡ unless_empty (
          first_of_two
            (get k env_map)
            (first_of_two (get k (cred_vars cred)) (get k (base_env getenv))))
unfolding build_env
get-build_env getenv env_map cred k d dc =
    let under = put_all (cred_vars cred) (base_env getenv) in
    get-set_entries k (put_all env_map under) (
      put_all-Distinct env_map under
        (put_all-Distinct (cred_vars cred) _ (base_env-Distinct getenv)))
    ∙ ground
        (arith, get-put_all k env_map under d, get-put_all k (cred_vars cred) (base_env getenv) dc)
