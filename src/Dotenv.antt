-- ===== src/Dotenv.antt =====
-- agent/internal/deploy/dotenv.go: the `.env` files of deployed apps. Text is code points. A Go map is
-- an association list, and the keys are sorted before they are written, so its order does not matter.
pub mod Trim
pub mod Quote
pub mod Line
pub mod RoundTrip
pub mod Merge
mod Tests
use cron_compose.Prelude.{
  ℕ, zero, suc, ◌+◌, bytes_eq, ◌==◌, Bool, true, false, not, ◌||◌, ◌&&◌, List, [], ◌∷◌, ◌++◌,
  Option, none, some, if◌then◌else◌, Bytes, map, nat_beq, leb,
}
use cron_compose.Prelude.Text.{codes, decimal}
use cron_compose.Prelude.Map.{get, put, has}
use cron_compose.Prelude.Strings.{
  is_space, any, trim, trim_right_by, strip_prefix, split, cut, expand, contract, before_pair, last,
  init, sort_texts,
}

abbrev pub is_cr : ℕ → Bool
is_cr c = nat_beq c 13

abbrev pub is_quoted_by : ℕ → Bytes → Bool
is_quoted_by q [] = false
is_quoted_by q (c ∷ []) = false
is_quoted_by q (c ∷ d ∷ s) =
    nat_beq c q && elim (last (d ∷ s)) [ none ↦ false | some e ↦ nat_beq e q ]

-- `v[1 : n-1]`.
abbrev pub inner : Bytes → Bytes
inner [] = []
inner (c ∷ s) = init s

-- What is left of an unquoted value when its comment is cut off.
abbrev pub without_comment : Bytes → Bytes
without_comment v = elim (before_pair 32 b'#' v) [ none ↦ v | some p ↦ trim p ]

unfoldable pub unquote_env : Bytes → Bytes
unquote_env v =
    if is_quoted_by b'"' v
    then contract 92 92 92 (contract 92 b'"' b'"' (inner v))
    else (if is_quoted_by 39 v then inner v else without_comment v)

-- The line that is cut at `=`: with `export ` in front it is the trimmed rest.
exported : Bytes → Bytes → Bytes
exported line trimmed = elim (strip_prefix (codes "export ") trimmed) [
  | none ↦ line
  | some rest ↦ trim rest
]

named : Option (Bytes × Bytes) → Option (Bytes × Bytes)
named none = none
named (some (k, v)) = if trim k == [] then none else some (trim k, unquote_env (trim v))

assignment : Bytes → Option (Bytes × Bytes)
unfolding exported named
assignment line =
    let trimmed = trim line in
    if (trimmed == [])
      || not (elim (strip_prefix (codes "#") trimmed) [ none ↦ true | some r ↦ false ])
    then none
    else named (cut b'=' (exported line trimmed))

-- The body of the loop over the lines: the assignment of a line, if it is one.
unfoldable pub parse_line : Bytes → Option (Bytes × Bytes)
unfolding assignment
parse_line line = assignment (trim_right_by is_cr line)

set_line : Option (Bytes × Bytes) → List (Bytes × Bytes) → List (Bytes × Bytes)
set_line none out = out
set_line (some (k, v)) out = put k v out

unfoldable pub parse_lines : List Bytes → List (Bytes × Bytes) → List (Bytes × Bytes)
unfolding set_line
parse_lines [] out = out
parse_lines (l ∷ ls) out = parse_lines ls (set_line (parse_line l) out)

unfoldable pub parse_dot_env : Bytes → List (Bytes × Bytes)
unfolding parse_lines
parse_dot_env content = parse_lines (split 10 content) []

-- A character for which a value is quoted.
abbrev pub is_special : ℕ → Bool
is_special c =
    nat_beq c 32
    || nat_beq c 9
    || nat_beq c 10
    || nat_beq c 13
    || nat_beq c b'"'
    || nat_beq c 39
    || nat_beq c b'#'
    || nat_beq c b'='

-- Backslashes are doubled, then quotes are escaped.
abbrev pub escape : Bytes → Bytes
escape v = expand b'"' 92 b'"' (expand 92 92 92 v)

unfoldable pub quote_dot_env : Bytes → Bytes
quote_dot_env [] = []
quote_dot_env (c ∷ s) =
    if any is_special (c ∷ s) then b'"' ∷ (escape (c ∷ s) ++ (b'"' ∷ [])) else c ∷ s

-- The keys that are written, trimmed and not empty.
unfoldable pub written_keys : List (Bytes × Bytes) → List Bytes
written_keys [] = []
written_keys ((k, v) ∷ env) =
    let rest = written_keys env in if trim k == [] then rest else trim k ∷ rest

-- `env[k]`, the empty text on a missing key.
abbrev pub value_of : Bytes → List (Bytes × Bytes) → Bytes
value_of k env = elim (get k env) [ none ↦ [] | some v ↦ v ]

unfoldable pub write_lines : List (Bytes × Bytes) → List Bytes → Bytes
write_lines env [] = []
write_lines env (k ∷ ks) =
    (k ++ (b'=' ∷ quote_dot_env (value_of k env))) ++ (10 ∷ write_lines env ks)

-- The first line of a file, a comment.
abbrev pub heading : Bytes
heading = codes "# Written by CronCompose deploy " ++ (8212 ∷ codes " do not edit during a run")

content_of : List (Bytes × Bytes) → List Bytes → Option Bytes
content_of env [] = none
content_of env (k ∷ ks) = some (heading ++ (10 ∷ write_lines env (sort_texts (k ∷ ks))))

-- What `writeDotEnvFile` writes, `none` if it writes no file.
unfoldable pub dot_env_content : List (Bytes × Bytes) → Option Bytes
unfolding content_of
dot_env_content env = content_of env (written_keys env)

-- One file of `mergeDotEnvAround`: keys that are there win.
unfoldable pub add_missing : List (Bytes × Bytes) → List (Bytes × Bytes) → List (Bytes × Bytes)
add_missing [] env = env
add_missing ((k, v) ∷ vals) env =
    add_missing vals (elim (get k env) [ none ↦ put k v env | some w ↦ env ])

-- `readDotEnvFile`, where `none` is a file that cannot be read.
abbrev pub read_dot_env : Option Bytes → List (Bytes × Bytes)
read_dot_env none = []
read_dot_env (some content) = parse_dot_env content

-- The files of the directories and `filepath.Dir` are arguments.
module _ (file : Bytes → Option Bytes) (parent : Bytes → Bytes) where
  -- The loop, on the directories that are left to visit.
  unfoldable pub merge_up : ℕ → Bytes → List (Bytes × Bytes) → List (Bytes × Bytes)
  merge_up zero dir env = env
  merge_up (suc left) dir env =
      let env' = add_missing (read_dot_env (file dir)) env in
      let rest = merge_up left (parent dir) env' in if parent dir == dir then env' else rest

  unfoldable pub merge_dot_env_around : Bytes → List (Bytes × Bytes) → List (Bytes × Bytes)
  unfolding merge_up
  merge_dot_env_around work env = if trim work == [] then env else merge_up 6 work env

abbrev pub listen_port_aliases : List Bytes
listen_port_aliases =
    codes "PROXY_PORT"
    ∷ codes "HTTP_PORT"
    ∷ codes "APP_PORT"
    ∷ codes "LISTEN_PORT"
    ∷ codes "SERVER_PORT"
    ∷ []

unfoldable pub sync_aliases : Bytes → List Bytes → List (Bytes × Bytes) → List (Bytes × Bytes)
sync_aliases p [] env = env
sync_aliases p (k ∷ ks) env = sync_aliases p ks (if has k env then put k p env else env)

with_port : Bytes → List (Bytes × Bytes) → List (Bytes × Bytes)
with_port p env =
    if has (codes "FRONTEND_PORT") env || has (codes "BACKEND_PORT") env
    then env
    else sync_aliases p listen_port_aliases env

-- A port that is not positive counts as 0.
unfoldable pub apply_listen_port : ℕ → List (Bytes × Bytes) → List (Bytes × Bytes)
unfolding with_port
apply_listen_port zero env = env
apply_listen_port (suc n) env = let p = decimal (suc n) in with_port p (put (codes "PORT") p env)
