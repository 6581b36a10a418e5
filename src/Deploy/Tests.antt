-- ===== src/Deploy/Tests.antt =====
-- Runs of the model of agent/internal/deploy, and its theorems at concrete inputs.
use cron_compose.Prelude.{
  ◌≡◌, ◌≢◌, ◌≤◌, refl, Bool, true, false, List, [], ◌∷◌, ◌++◌, All, map, Option, none, some, Bytes,
  bytes_eq, ◌==◌, arith, Bool-cases, inl, inr, ==_iff, ◌||◌, if◌then◌else◌, sym, ap,
}
use cron_compose.Prelude.Text.{codes}
use cron_compose.Prelude.Int.{ℤ, pos, negsuc}
use cron_compose.Deploy.Redact.{starts_with, is_star, contains}
use cron_compose.Deploy.Events.{Event, Feed, notice, log_event, emit_all}
use cron_compose.Deploy.Events.Secrets.{IsSafe, emit_all-IsSafe}
use cron_compose.Deploy.Events.Capped.{Capped, emit_all-Capped}
use cron_compose.Deploy.Release.{
  Tree, release_names, keep_releases, drop_first, newest_first, prune,
}
use cron_compose.Prelude.Strings.{
  any, sort_texts, text_leb, trim, trim_right_by, trim_left_by, is_space,
}
use cron_compose.Prelude.Map.{has, get, put}
use cron_compose.Deploy.Release.Names.{times}
use cron_compose.Deploy.Release.Pruned.{Prunes, prune-Prunes}
use cron_compose.Deploy.Plan.{App}
use cron_compose.Deploy.Waves.{sort_numbers, group_apps_by_start}
use cron_compose.Deploy.Waves.Grouped.{IsGrouped, group_apps_by_start-IsGrouped}
use cron_compose.Deploy.Scrub.{scrub_log, is_blank, is_letter, spinner_only}
use cron_compose.Deploy.Scripts.{split_install_build, split_and}

abbrev token : Bytes
token = codes "ghs"

-- A chunk of a log with an escape sequence and the token in it.
abbrev chunk : Event
chunk = log_event (codes "clone") (codes "fetch " ++ 27 ∷ (codes "[1Khttps://ghs@host" ++ 10 ∷ []))

abbrev fresh : Feed
fresh = record { seq = some 0; logged = some 0; cap_noted = false; sent = [] }

chunk_scrubbed : scrub_log chunk.payload ≡ codes "fetch https://ghs@host" ++ 10 ∷ []
unfolding scrub_log is_blank is_letter spinner_only
chunk_scrubbed = refl

some_token : token ≢ []
some_token e = cc

plain_token : any is_star token ≡ false
unfolding any
plain_token = refl

notice-IsSafe : IsSafe token notice
unfolding notice contains starts_with
notice-IsSafe = (refl, refl)

emit_all-IsSafe_example : All (IsSafe token) (emit_all token (chunk ∷ []) fresh).sent
emit_all-IsSafe_example =
    emit_all-IsSafe token some_token plain_token notice-IsSafe (chunk ∷ []) fresh tt

emit_all-Capped_example : Capped token [] 0 (chunk ∷ []) (emit_all token (chunk ∷ []) fresh)
emit_all-Capped_example = emit_all-Capped token (chunk ∷ []) fresh refl refl refl

-- Releases as a list of their names, the first of which is live.
abbrev without : Bytes → List Bytes → List Bytes
without name [] = []
without name (x ∷ xs) = let rest = without name xs in if x == name then rest else x ∷ rest

abbrev holds : Bytes → List Bytes → Bool
holds name [] = false
holds name (x ∷ xs) = x == name || holds name xs

abbrev first_of : List Bytes → Option Bytes
first_of [] = none
first_of (x ∷ xs) = some x

abbrev on_disk : Tree
on_disk = record {
  State = List Bytes;
  entries = λ s. some (map (λ n. record { name = n; is_dir = true }) s);
  sha_file = λ n s. none;
  current = first_of;
  remove_all = λ n s. (true, without n s);
  present = holds;
}

abbrev seven : List Bytes
seven = codes "a" ∷ codes "b" ∷ codes "c" ∷ codes "d" ∷ codes "e" ∷ codes "f" ∷ codes "g" ∷ []

holds-without :
    (m n : Bytes) (s : List Bytes) → (m == n) ≡ false → holds n (without m s) ≡ holds n s
holds-without m n [] h = refl
holds-without m n (x ∷ xs) h = elim (Bool-cases (x == m)) [
  | inl e ↦
      let e' : x ≡ m = (==_iff x m).0 e in rw (e, ap (λ y. y == n) e', h) (holds-without m n xs h)
  | inr e ↦ rw e (ap (λ b. x == n || b) (holds-without m n xs h))
]

without_gone : (m : Bytes) (s : List Bytes) → true ≡ true → holds m (without m s) ≡ false
without_gone m [] h = refl
without_gone m (x ∷ xs) h = elim (Bool-cases (x == m)) [
  | inl e ↦ rw e (without_gone m xs h)
  | inr e ↦ rw (e, e) (without_gone m xs h)
]

abbrev Distinct : List Bytes → Type 0
Distinct [] = Unit
Distinct (x ∷ xs) = (times x xs ≡ 0) × Distinct xs

times-Distinct : (n : Bytes) (names : List Bytes) → Distinct names → times n names ≤ 1
unfolding times
times-Distinct n [] d = omega arith
times-Distinct n (x ∷ xs) d = elim (Bool-cases (x == n)) [
  | inl e ↦
      let e' : n ≡ x = sym ((==_iff x n).0 e) in rw (e, ap (λ y. times y xs) e', d.0) (omega arith)
  | inr e ↦ let h = times-Distinct n xs d.1 in rw e (omega (arith, h))
]

names_of_seven : release_names (map (λ n. record { name = n; is_dir = true }) seven) ≡ seven
unfolding release_names starts_with
names_of_seven = refl

seven-Distinct : Distinct seven
unfolding times
seven-Distinct = (refl, (refl, (refl, (refl, (refl, (refl, (refl, tt)))))))

seven_pruned : prune on_disk seven ≡ (codes "b" ∷ [], without (codes "b") seven)
unfolding prune release_names starts_with keep_releases drop_first newest_first sort_texts text_leb
seven_pruned = refl

prune-Prunes_example :
    Prunes on_disk (map (λ n. record { name = n; is_dir = true }) seven) seven (prune on_disk seven)
prune-Prunes_example =
    prune-Prunes on_disk (map (λ n. record { name = n; is_dir = true }) seven) seven holds-without
      without_gone refl (λ n. rw names_of_seven (times-Distinct n seven seven-Distinct))

abbrev app : Bytes → ℤ → App
app name g = record {
  name = name;
  root_directory = [];
  install_script = [];
  cleanup_script = [];
  pre_start_script = [];
  run_script = [];
  language = [];
  process_manager = [];
  port = pos 0;
  env = [];
  health = none;
  start_group = g;
}

abbrev apps : List App
apps =
    app (codes "web") (pos 2)
    ∷ app (codes "db") (negsuc 4)
    ∷ app (codes "api") (pos 2)
    ∷ app (codes "cache") (pos 0)
    ∷ []

apps_grouped :
    group_apps_by_start apps
    ≡ (app (codes "db") (negsuc 4) ∷ app (codes "cache") (pos 0) ∷ [])
      ∷ (app (codes "web") (pos 2) ∷ app (codes "api") (pos 2) ∷ [])
      ∷ []
unfolding group_apps_by_start sort_numbers has get put
apps_grouped = refl

group_apps_by_start-IsGrouped_example : IsGrouped apps (group_apps_by_start apps)
group_apps_by_start-IsGrouped_example = group_apps_by_start-IsGrouped apps

installs_and_builds :
    split_install_build (codes " npm ci && npm run build &&echo ok")
    ≡ (codes "npm ci", codes "npm run build && echo ok")
unfolding split_install_build trim trim_right_by trim_left_by is_space contains starts_with
    split_and
installs_and_builds = refl
