-- ===== src/Deploy/Scripts.antt =====
-- script_split.go and cleanup.go of agent/internal/deploy: the parts of an install script, and what is
-- cleaned up after a build. `strings.ToLower` is taken on ASCII letters.
use cron_compose.Prelude.{
  ◌+◌, Bool, false, ◌||◌, ◌&&◌, List, [], ◌∷◌, ◌++◌, Bytes, nat_eq, bytes_eq, ◌==◌, if◌then◌else◌,
  leb,
}
use cron_compose.Prelude.Text.{codes}
use cron_compose.Prelude.Strings.{trim, split}
use cron_compose.Deploy.Redact.{starts_with, contains}

unfoldable pub lower : Bytes → Bytes
lower [] = []
lower (c ∷ s) = (if leb b'A' c && leb c b'Z' then c + 32 else c) ∷ lower s

-- The texts between two ampersands in a row; the first is the one that is being read.
unfoldable pub split_and : Bytes → Bytes → List Bytes
split_and acc [] = acc ∷ []
split_and acc (c ∷ []) = (acc ++ c ∷ []) ∷ []
split_and acc (c ∷ d ∷ s) =
    let cut = acc ∷ split_and [] s in
    let rest = split_and (acc ++ c ∷ []) (d ∷ s) in if c == b'&' && d == b'&' then cut else rest

unfoldable pub trimmed_parts : List Bytes → List Bytes
trimmed_parts [] = []
trimmed_parts (p ∷ ps) = let rest = trimmed_parts ps in if trim p == [] then rest else trim p ∷ rest

unfoldable pub split_shell_commands : Bytes → List Bytes
unfolding trimmed_parts
split_shell_commands script =
    if trim script == []
    then []
    else (if contains (codes "&&") (trim script)
        then trimmed_parts (split_and [] (trim script))
        else trimmed_parts (split 10 (trim script)))

pub data CommandKind : Type 0 where
  install build command : CommandKind

unfoldable pub match_prefix : Bytes → List Bytes → Bool
match_prefix c [] = false
match_prefix c (p ∷ ps) = starts_with p c || c == trim p || match_prefix c ps

abbrev install_prefixes : List Bytes
install_prefixes =
    codes "npm ci"
    ∷ codes "npm install"
    ∷ codes "npm i "
    ∷ codes "pnpm install"
    ∷ codes "pnpm i "
    ∷ codes "yarn install"
    ∷ codes "yarn i "
    ∷ codes "bun install"
    ∷ codes "bun i "
    ∷ codes "go mod download"
    ∷ codes "go mod tidy"
    ∷ codes "go mod vendor"
    ∷ codes "pip install"
    ∷ codes "pip3 install"
    ∷ codes "pipenv install"
    ∷ codes "poetry install"
    ∷ codes "uv sync"
    ∷ codes "uv add"
    ∷ codes "bundle install"
    ∷ codes "cargo fetch"
    ∷ []

abbrev build_prefixes : List Bytes
build_prefixes =
    codes "go build"
    ∷ codes "cargo build"
    ∷ codes "tsc"
    ∷ codes "vite"
    ∷ codes "webpack"
    ∷ codes "next"
    ∷ codes "nuxt"
    ∷ codes "astro"
    ∷ codes "npm run build"
    ∷ codes "pnpm run build"
    ∷ codes "pnpm build"
    ∷ codes "yarn run build"
    ∷ codes "yarn build"
    ∷ []

unfoldable pub classify_install_kind : Bytes → CommandKind
unfolding match_prefix lower
classify_install_kind cmd =
    let c = lower (trim cmd) in
    if match_prefix c install_prefixes
    then install
    else (if contains (codes "build") c
          || contains (codes "compile") c
          || match_prefix c build_prefixes
        then build
        else command)

-- A command that is neither goes with the build once there is something to install.
abbrev place : CommandKind → Bytes → List Bytes × List Bytes → List Bytes × List Bytes
place install c (is, bs) = (is ++ c ∷ [], bs)
place build c (is, bs) = (is, bs ++ c ∷ [])
place command c ([], bs) = (c ∷ [], bs)
place command c (i ∷ is, bs) = (i ∷ is, bs ++ c ∷ [])

unfoldable pub place_all : List Bytes → List Bytes × List Bytes → List Bytes × List Bytes
place_all [] r = r
place_all (c ∷ cs) r = place_all cs (place (classify_install_kind c) c r)

-- `strings.Join(parts, " && ")`.
unfoldable pub chained : List Bytes → Bytes
chained [] = []
chained (c ∷ []) = c
chained (c ∷ d ∷ cs) = c ++ (codes " && " ++ chained (d ∷ cs))

unfoldable pub split_install_build : Bytes → Bytes × Bytes
unfolding split_shell_commands place_all classify_install_kind chained
split_install_build script =
    let (is, bs) = place_all (split_shell_commands script) ([], []) in (chained is, chained bs)

unfoldable pub default_cleanup : Bytes → Bytes
unfolding lower
default_cleanup language =
    let l = lower (trim language) in
    let is = λ (s : Bytes). l == s in
    if is (codes "nextjs")
    then codes "rm -rf .git .github node_modules/.cache .next/cache .turbo"
    else (if is (codes "nestjs")
        then codes "rm -rf .git .github src test node_modules/.cache .turbo *.md"
        else (if is (codes "react")
              || is (codes "vue")
              || is (codes "nuxt")
              || is (codes "astro")
              || is (codes "sveltekit")
              || is (codes "remix")
            then codes "rm -rf .git .github src node_modules/.cache .turbo *.md"
            else (if is (codes "express")
                  || is (codes "node")
                  || is (codes "typescript")
                  || is (codes "javascript")
                  || is (codes "bun")
                then codes "rm -rf .git .github node_modules/.cache *.md"
                else (if is (codes "go") || is (codes "golang")
                    then codes "rm -rf .git .github *.md"
                    else (if is (codes "rust")
                        then codes "rm -rf .git .github src target/debug *.md"
                        else (if is (codes "dotnet")
                              || is (codes "csharp")
                              || is (codes "aspnet")
                              || is (codes "aspnetcore")
                            then codes "rm -rf .git .github *.md"
                            else (if is (codes "fastapi")
                                  || is (codes "django")
                                  || is (codes "flask")
                                  || is (codes "python")
                                then codes "rm -rf .git .github __pycache__ .pytest_cache *.md"
                                else (if is (codes "rails") || is (codes "ruby")
                                    then codes "rm -rf .git .github tmp/cache log/*.log *.md"
                                    else (if is (codes "laravel") || is (codes "php")
                                        then codes "rm -rf .git .github tests *.md"
                                        else (if is (codes "spring")
                                              || is (codes "java")
                                              || is (codes "kotlin")
                                            then codes "rm -rf .git .github src *.md"
                                            else (if is (codes "elixir")
                                                then codes "rm -rf .git .github *_test.exs *.md"
                                                else (if is (codes "deno")
                                                    then codes "rm -rf .git .github *.md"
                                                    else (if is (codes "docker")
                                                        then []
                                                        else codes
                                                            "rm -rf .git .github")))))))))))))

unfoldable pub cleanup_script_for : Bytes → Bytes → Bytes
unfolding default_cleanup
cleanup_script_for own language = if trim own == [] then default_cleanup language else trim own
