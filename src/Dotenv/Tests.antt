-- ===== src/Dotenv/Tests.antt =====
-- Files that are written and read, and the theorems at concrete inputs.
use cron_compose.Prelude.{
  bytes_eq, ◌==◌, ◌≡◌, refl, not, ◌&&◌, List, [], ◌∷◌, Option, none, some, if◌then◌else◌, Bytes,
  arith,
}
use cron_compose.Prelude.Text.{codes, decimal}
use cron_compose.Prelude.Map.{get, put, has}
use cron_compose.Prelude.Strings.{
  is_space, any, trim, trim_left_by, trim_right_by, cons_kept, strip_prefix, split, cut, sort_texts,
  expand, last, before_pair,
}
use cron_compose.Dotenv.Quote.{IsReadable}
use cron_compose.Dotenv.RoundTrip.{IsPlain, parse_dot_env-content}
use cron_compose.Dotenv.Merge.{
  or_else, nearest, ancestors, get-merge_dot_env_around, get-apply_listen_port, is_monorepo, listed,
}
use cron_compose.Dotenv.{
  unquote_env, quote_dot_env, parse_line, parse_lines, parse_dot_env, dot_env_content, written_keys,
  write_lines, merge_dot_env_around, apply_listen_port, listen_port_aliases,
}

-- A value with a quote, a backslash and a comment sign.
abbrev odd : Bytes
odd = codes "a \"b\\\" #c"

odd-IsReadable : IsReadable odd
unfolding any
odd-IsReadable h = absurd (ground (arith, h))

abbrev port : Bytes × Bytes
port = (codes "PORT", codes "3000")

abbrev name : Bytes × Bytes
name = (codes "APP_NAME", odd)

port-IsPlain : IsPlain port
unfolding any is_space strip_prefix trim_left_by trim_right_by cons_kept
port-IsPlain = (
  record { present = refl; spaceless = refl; no_equals = refl; no_comment = refl },
  (refl, λ h. record { left = refl; right = refl }),
)

name-IsPlain : IsPlain name
unfolding any is_space strip_prefix
name-IsPlain = (
  record { present = refl; spaceless = refl; no_equals = refl; no_comment = refl },
  (refl, odd-IsReadable),
)

parse_dot_env-content_example :
    (content : Bytes) × (dot_env_content (port ∷ name ∷ []) ≡ some content)
    × ((k : Bytes) → get k (parse_dot_env content) ≡ get k (port ∷ name ∷ []))
parse_dot_env-content_example =
    parse_dot_env-content port (name ∷ []) (port-IsPlain, (name-IsPlain, tt))

-- A value with a line break is quoted, and comes back cut off, with the rest of it as a variable.
abbrev broken : List (Bytes × Bytes)
broken = (codes "KEY", codes "a\nB=c") ∷ []

read_back : Option Bytes → List (Bytes × Bytes)
read_back none = []
read_back (some content) = parse_dot_env content

line_break_is_lost :
    read_back (dot_env_content broken) ≡ (codes "KEY", codes "\"a") ∷ (codes "B", codes "c\"") ∷ []
unfolding read_back dot_env_content written_keys trim trim_left_by trim_right_by is_space sort_texts
    write_lines get put quote_dot_env any expand parse_dot_env parse_lines split parse_line cut
    strip_prefix unquote_env last before_pair
line_break_is_lost = refl

-- One `.env` file, in the root; a path is a number of directories below it.
abbrev root_only : Bytes → Option Bytes
root_only [] = some (codes "A=1\nB=2")
root_only (c ∷ dir) = none

abbrev up : Bytes → Bytes
up [] = []
up (c ∷ dir) = dir

get-merge_dot_env_around_example :
    get (codes "A") (merge_dot_env_around root_only up (codes "xy") ((codes "B", codes "3") ∷ []))
    ≡ or_else
        (get (codes "A") ((codes "B", codes "3") ∷ []))
        (nearest root_only up (codes "A") (ancestors root_only up 6 (codes "xy")))
unfolding trim trim_left_by trim_right_by is_space
get-merge_dot_env_around_example =
    get-merge_dot_env_around root_only up (codes "xy") ((codes "B", codes "3") ∷ []) (codes "A")
      refl

get-apply_listen_port_example :
    get (codes "PROXY_PORT") (apply_listen_port 8080 ((codes "PROXY_PORT", codes "80") ∷ [])) ≡ (
      if codes "PORT" == codes "PROXY_PORT"
      then some (decimal 8080)
      else (if not (is_monorepo ((codes "PROXY_PORT", codes "80") ∷ []))
            && (listed (codes "PROXY_PORT") listen_port_aliases
                && has (codes "PROXY_PORT") ((codes "PROXY_PORT", codes "80") ∷ []))
          then some (decimal 8080)
          else get (codes "PROXY_PORT") ((codes "PROXY_PORT", codes "80") ∷ [])))
get-apply_listen_port_example =
    get-apply_listen_port 8079 ((codes "PROXY_PORT", codes "80") ∷ []) (codes "PROXY_PORT")
