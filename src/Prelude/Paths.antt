-- ===== src/Prelude/Paths.antt =====
-- What the program takes from Go's package path/filepath on Unix, on texts as code points.
use Prim.Native.Nat.{ℕ}
use mathlib.Core.Bool.{Bool, true, false, ◌||◌}
use mathlib.Core.List.{List, [], ◌∷◌, ◌++◌}
use cron_compose.Prelude.Keys.{Bytes, bytes_eq, ◌==◌}
use cron_compose.Prelude.Tests.{if◌then◌else◌, nat_beq}
use cron_compose.Prelude.Strings.{split, trim_right_by}

abbrev slash : ℕ
slash = 47

abbrev dot : Bytes
dot = 46 ∷ []

abbrev dot_dot : Bytes
dot_dot = 46 ∷ 46 ∷ []

-- The parts of a cleaned path, the last one first. A `..` takes the part before it away; above the
-- root it is dropped, and at the front of a relative path it stays.
unfoldable pub push_part : Bool → Bytes → List Bytes → List Bytes
push_part rooted part [] =
    if part == [] || part == dot
    then []
    else (if part == dot_dot then (if rooted then [] else dot_dot ∷ []) else part ∷ [])
push_part rooted part (top ∷ below) =
    if part == [] || part == dot
    then top ∷ below
    else (if part == dot_dot
        then (if top == dot_dot then dot_dot ∷ top ∷ below else below)
        else part ∷ top ∷ below)

unfoldable pub push_parts : Bool → List Bytes → List Bytes → List Bytes
unfolding push_part
push_parts rooted [] out = out
push_parts rooted (p ∷ parts) out = push_parts rooted parts (push_part rooted p out)

-- The parts, the last one first, joined by slashes.
unfoldable pub join_reversed : List Bytes → Bytes → Bytes
join_reversed [] acc = acc
join_reversed (p ∷ []) acc = p ++ acc
join_reversed (p ∷ q ∷ ps) acc = join_reversed (q ∷ ps) (slash ∷ p ++ acc)

unfoldable pub is_rooted : Bytes → Bool
is_rooted [] = false
is_rooted (c ∷ _) = nat_beq c slash

unfoldable pub clean_parts : Bytes → List Bytes
unfolding push_parts is_rooted
clean_parts p = push_parts (is_rooted p) (split slash p) []

unfoldable pub print_path : Bool → List Bytes → Bytes
unfolding join_reversed
print_path true parts = slash ∷ join_reversed parts []
print_path false [] = dot
print_path false (p ∷ parts) = join_reversed (p ∷ parts) []

-- `filepath.Clean`.
unfoldable pub clean : Bytes → Bytes
unfolding clean_parts print_path
clean p = print_path (is_rooted p) (clean_parts p)

-- The text up to and with its last slash.
unfoldable pub up_to_slash : Bytes → Bytes
up_to_slash [] = []
up_to_slash (c ∷ s) = elim (up_to_slash s) [
  | [] ↦ if nat_beq c slash then c ∷ [] else []
  | d ∷ t ↦ c ∷ d ∷ t
]

-- `filepath.Dir`.
unfoldable pub dir : Bytes → Bytes
unfolding up_to_slash clean
dir p = clean (up_to_slash p)

-- `filepath.Join` of two elements.
unfoldable pub join : Bytes → Bytes → Bytes
unfolding clean
join [] [] = []
join [] (c ∷ b) = clean (c ∷ b)
join (c ∷ a) [] = clean (c ∷ a)
join (c ∷ a) (d ∷ b) = clean (c ∷ a ++ slash ∷ d ∷ b)

unfoldable pub after_slash : Bytes → Bytes → Bytes
after_slash acc [] = acc
after_slash acc (c ∷ s) =
    if nat_beq c slash then after_slash [] s else after_slash (acc ++ c ∷ []) s

-- `filepath.Base`.
unfoldable pub base : Bytes → Bytes
unfolding after_slash
base [] = dot
base (c ∷ s) =
    let p = trim_right_by (λ d. nat_beq d slash) (c ∷ s) in
    if p == [] then slash ∷ [] else after_slash [] p
