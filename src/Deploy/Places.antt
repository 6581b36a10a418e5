-- ===== src/Deploy/Places.antt =====
-- Where the work on an app happens and with what environment: `normalizeRoot` of
-- agent/internal/deploy/copy.go, `detectLangHint` of process.go, and `appsOf`, `appWorkDir` and `appEnv`
-- of runner.go. What files there are is an argument.
use cron_compose.Prelude.{
  suc, zero, nat_eq, Bool, ◌||◌, List, [], ◌∷◌, map, none, some, Bytes, bytes_eq, ◌==◌,
  if◌then◌else◌,
}
use cron_compose.Prelude.Int.{ℤ, pos, negsuc, pos_part}
use cron_compose.Prelude.Text.{codes}
use cron_compose.Prelude.Strings.{trim, strip_prefix}
use cron_compose.Prelude.Paths.{clean, join, base}
use cron_compose.Dotenv.{apply_listen_port}
use cron_compose.Executor.Command.{put_all}
use cron_compose.Deploy.Redact.{starts_with}
use cron_compose.Deploy.Release.{sanitize_segment}
use cron_compose.Deploy.Plan.{App, Project}

abbrev without_prefix : Bytes → Bytes → Bytes
without_prefix p s = elim (strip_prefix p s) [ none ↦ s | some t ↦ t ]

-- A root that leads out of the repository counts as the repository itself.
unfoldable pub inside : Bytes → Bytes
inside root =
    if root == codes "." || root == [] || starts_with (codes "..") root then codes "." else root

unfoldable pub normalize_root : Bytes → Bytes
unfolding inside
normalize_root root =
    let slashed = map (λ c. if c == b'\\' then b'/' else c) (trim root) in
    inside (clean (without_prefix (codes "./") (without_prefix (codes "/") slashed)))

abbrev pub or_default : Bytes → Bytes → Bytes
or_default [] d = d
or_default (c ∷ s) d = c ∷ s

-- 0 stands for no port.
abbrev pub or_port : ℤ → ℤ → ℤ
or_port (pos zero) d = d
or_port (pos (suc n)) d = pos (suc n)
or_port (negsuc n) d = negsuc n

unfoldable pub app_root : Project → App → Bytes
app_root cmd app = normalize_root (or_default app.root_directory cmd.root_directory)

unfoldable pub release_subdir : App → Bytes → Bytes
release_subdir app root =
    let sub = sanitize_segment app.name in
    if root == codes "."
    then (if sub == [] || sub == codes "run" then codes "app" else sub)
    else root

-- An app by itself has the whole release.
unfoldable pub app_work_dir : Bytes → Project → App → Bytes
unfolding app_root release_subdir
app_work_dir release cmd app = elim cmd.apps [
  | [] ↦ release
  | a ∷ [] ↦ release
  | a ∷ b ∷ rest ↦ join release (release_subdir app (app_root cmd app))
]

unfoldable pub detect_lang_hint : (Bytes → Bool) → Bytes → Bytes
detect_lang_hint exists work =
    if exists (join work (codes "package.json"))
    then codes "node"
    else (if exists (join work (codes "go.mod"))
        then codes "go"
        else (if exists (join work (codes "pyproject.toml"))
              || exists (join work (codes "requirements.txt"))
            then codes "python"
            else []))

abbrev single_app : Project → Bytes → Bytes → App
single_app cmd name language = record {
  name = name;
  root_directory = cmd.root_directory;
  install_script = cmd.install_script;
  cleanup_script = [];
  pre_start_script = [];
  run_script = [];
  language = language;
  process_manager = cmd.process_manager;
  port = cmd.port;
  env = cmd.env;
  health = none;
  start_group = pos 0;
}

-- The apps of the project, or one that is made up for a project without any.
unfoldable pub apps_of : (Bytes → Bool) → Project → Bytes → List App
unfolding detect_lang_hint
apps_of exists cmd dir = elim cmd.apps [
  | [] ↦
      (if dir == []
        then single_app cmd (codes "app") []
        else single_app cmd (base dir) (detect_lang_hint exists dir))
      ∷ []
  | a ∷ apps ↦ a ∷ apps
]

unfoldable pub app_env : Project → App → List (Bytes × Bytes)
app_env cmd app =
    apply_listen_port (pos_part (or_port app.port cmd.port)) (put_all app.env (put_all cmd.env []))
