-- ===== src/Deploy/Waves.antt =====
-- `groupAppsByStart` of agent/internal/deploy/runner.go: the apps of a project by start group.
pub mod Order
pub mod Grouped
use cron_compose.Prelude.{
  ℕ, zero, suc, ◌+◌, Bool, true, false, List, [], ◌∷◌, ◌++◌, map, Option, none, some, Bytes, nat_eq,
  ◌==◌, if◌then◌else◌, leb,
}
use cron_compose.Prelude.Int.{pos_part}
use cron_compose.Prelude.Map.{get, put, has}
use cron_compose.Deploy.Plan.{App}

-- A negative group counts as 0.
abbrev pub group_of : App → ℕ
group_of a = pos_part a.start_group

abbrev pub bucket : ℕ → List (ℕ × List App) → List App
bucket g buckets = elim (get g buckets) [ none ↦ [] | some apps ↦ apps ]

-- The groups in the order in which they are met, and the apps of each.
unfoldable pub bucket_all : List App → List ℕ → List (ℕ × List App) → List ℕ × List (ℕ × List App)
bucket_all [] order buckets = (order, buckets)
bucket_all (a ∷ apps) order buckets =
    bucket_all apps (if has (group_of a) buckets then order else order ++ group_of a ∷ [])
      (put (group_of a) (bucket (group_of a) buckets ++ a ∷ []) buckets)

unfoldable pub insert_number : ℕ → List ℕ → List ℕ
insert_number x [] = x ∷ []
insert_number x (y ∷ ys) = if leb x y then x ∷ y ∷ ys else y ∷ insert_number x ys

-- `sort.Ints`.
unfoldable pub sort_numbers : List ℕ → List ℕ
unfolding insert_number
sort_numbers [] = []
sort_numbers (x ∷ xs) = insert_number x (sort_numbers xs)

unfoldable pub buckets_of : List ℕ → List (ℕ × List App) → List (List App)
buckets_of [] buckets = []
buckets_of (g ∷ gs) buckets = bucket g buckets ∷ buckets_of gs buckets

unfoldable pub group_apps_by_start : List App → List (List App)
unfolding bucket_all buckets_of
group_apps_by_start apps =
    let (order, buckets) = bucket_all apps [] [] in buckets_of (sort_numbers order) buckets
