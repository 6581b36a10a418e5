-- ===== src/Dotenv/Merge.antt =====
-- `mergeDotEnvAround` and `applyListenPort` of agent/internal/deploy/dotenv.go: which value of a
-- variable wins.
use cron_compose.Prelude.{
  ℕ, zero, suc, bytes_eq, ◌==◌, ==_iff, ◌≡◌, refl, Bool, true, false, not, ◌||◌, ◌&&◌, List, [],
  ◌∷◌, Option, none, some, if◌then◌else◌, Bytes, arith, Bool-cases, Option-cases, inl, inr,
}
use cron_compose.Prelude.Text.{codes, decimal}
use cron_compose.Prelude.Map.{get, put, has, get-put, has-put}
use cron_compose.Prelude.Strings.{trim}
use cron_compose.Dotenv.{
  add_missing, read_dot_env, merge_up, merge_dot_env_around, listen_port_aliases, sync_aliases,
  with_port, apply_listen_port,
}

abbrev pub or_else : Option Bytes → Option Bytes → Option Bytes
or_else none b = b
or_else (some v) b = some v

get-add_missing :
    (vals env : List (Bytes × Bytes)) (k : Bytes)
    → get k (add_missing vals env) ≡ or_else (get k env) (get k vals)
unfolding add_missing get
get-add_missing [] env k = ground arith
get-add_missing ((j, v) ∷ vals) env k = elim (Option-cases (get j env)) [
  | inl e ↦
      rw e (ground (arith, e, get-add_missing vals (put j v env) k, get-put j k v env, ==_iff j k))
  | inr (w, e) ↦ rw e (ground (arith, e, get-add_missing vals env k, ==_iff j k))
]

module _ (file : Bytes → Option Bytes) (parent : Bytes → Bytes) where
  -- The directory and its ancestors, at most so many, up to the root.
  unfoldable pub ancestors : ℕ → Bytes → List Bytes
  ancestors zero dir = []
  ancestors (suc n) dir =
      let rest = ancestors n (parent dir) in dir ∷ (if parent dir == dir then [] else rest)

  -- The value in the first directory that sets the variable.
  unfoldable pub nearest : Bytes → List Bytes → Option Bytes
  nearest k [] = none
  nearest k (dir ∷ dirs) = or_else (get k (read_dot_env (file dir))) (nearest k dirs)

  get-merge_up :
      (n : ℕ) (dir : Bytes) (env : List (Bytes × Bytes)) (k : Bytes)
      → get k (merge_up file parent n dir env) ≡ or_else (get k env) (nearest k (ancestors n dir))
  unfolding merge_up ancestors nearest
  get-merge_up zero dir env k = ground arith
  get-merge_up (suc n) dir env k =
      let vals = read_dot_env (file dir) in
      elim (Bool-cases (parent dir == dir)) [
        | inl root ↦ rw root (ground (arith, get-add_missing vals env k))
        | inr inner ↦ rw inner (
            ground (
              arith,
              get-merge_up n (parent dir) (add_missing vals env) k,
              get-add_missing vals env k,
            ))
      ]

  -- For a directory that is not blank, the value of a variable after mergeDotEnvAround is that of the
  -- deploy, or else that of the `.env` file nearest to the directory, among six levels, that sets it.
  pub get-merge_dot_env_around :
      (work : Bytes) (env : List (Bytes × Bytes)) (k : Bytes)
      → (trim work == []) ≡ false
      → get k (merge_dot_env_around file parent work env)
        ≡ or_else (get k env) (nearest k (ancestors 6 work))
  unfolding merge_dot_env_around
  get-merge_dot_env_around work env k h = rw h (get-merge_up 6 work env k)

abbrev pub listed : Bytes → List Bytes → Bool
listed k [] = false
listed k (j ∷ ks) = if j == k then true else listed k ks

get-sync_aliases :
    (p : Bytes) (ks : List Bytes) (env : List (Bytes × Bytes)) (k : Bytes)
    → get k (sync_aliases p ks env) ≡ (if listed k ks && has k env then some p else get k env)
unfolding sync_aliases
get-sync_aliases p [] env k = refl
get-sync_aliases p (j ∷ ks) env k = elim (Bool-cases (has j env)) [
  | inl set ↦ rw set (
      ground (
        arith,
        set,
        get-sync_aliases p ks (put j p env) k,
        get-put j k p env,
        has-put j k p env,
        ==_iff j k,
      ))
  | inr unset ↦ rw unset (ground (arith, unset, get-sync_aliases p ks env k, ==_iff j k))
]

-- A deploy that listens on two ports.
abbrev pub is_monorepo : List (Bytes × Bytes) → Bool
is_monorepo env = has (codes "FRONTEND_PORT") env || has (codes "BACKEND_PORT") env

get-with_port :
    (p : Bytes) (env : List (Bytes × Bytes)) (k : Bytes)
    → get k (with_port p env) ≡ (
        if not (is_monorepo env) && (listed k listen_port_aliases && has k env)
        then some p
        else get k env)
unfolding with_port
get-with_port p env k = elim (Bool-cases (is_monorepo env)) [
  | inl two ↦ rw two refl
  | inr single ↦ rw single (get-sync_aliases p listen_port_aliases env k)
]

is_monorepo-put :
    (p : Bytes) (env : List (Bytes × Bytes))
    → is_monorepo (put (codes "PORT") p env) ≡ is_monorepo env
is_monorepo-put p env =
    rw
      (
        has-put (codes "PORT") (codes "FRONTEND_PORT") p env,
        has-put (codes "PORT") (codes "BACKEND_PORT") p env,
      )
      refl

by_tests :
    (p : Bytes) (port single alias set : Bool) (old : Option Bytes)
    → (if single && (alias && (if port then true else set))
        then some p
        else (if port then some p else old))
      ≡ (if port then some p else (if single && (alias && set) then some p else old))
by_tests p port single alias set old = ground arith

-- After applyListenPort with a positive port, PORT is that port. Every other variable is as it was,
-- but for the aliases that were set, which are that port too unless the deploy has a FRONTEND_PORT or
-- a BACKEND_PORT.
pub get-apply_listen_port :
    (n : ℕ) (env : List (Bytes × Bytes)) (k : Bytes)
    → get k (apply_listen_port (suc n) env) ≡ (
        if codes "PORT" == k
        then some (decimal (suc n))
        else (if not (is_monorepo env) && (listed k listen_port_aliases && has k env)
            then some (decimal (suc n))
            else get k env))
unfolding apply_listen_port
get-apply_listen_port n env k =
    let p = decimal (suc n) in
    let env' = put (codes "PORT") p env in
    rw
      (
        get-with_port p env' k,
        is_monorepo-put p env,
        has-put (codes "PORT") k p env,
        get-put (codes "PORT") k p env,
      )
      (by_tests p (codes "PORT" == k) (not (is_monorepo env)) (listed k listen_port_aliases)
        (has k env) (get k env))
