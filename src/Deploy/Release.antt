-- ===== src/Deploy/Release.antt =====
-- agent/internal/deploy/release.go: the tree of releases below the base directory of a project.
pub mod Names
pub mod Pruned
use cron_compose.Prelude.{
  ℕ, zero, suc, ◌+◌, Bool, true, false, not, ◌||◌, ◌&&◌, List, [], ◌∷◌, ◌++◌, length, Option, none,
  some, Bytes, nat_eq, bytes_eq, ◌==◌, if◌then◌else◌, leb, ltb,
}
use cron_compose.Prelude.Text.{codes, decimal}
use cron_compose.Prelude.Strings.{sort_texts, trim}
use cron_compose.Deploy.Redact.{starts_with}

-- The characters of a run id that may stand in the name of a directory.
unfoldable pub is_segment_char : ℕ → Bool
is_segment_char r =
    (leb b'a' r && leb r b'z')
    || (leb b'A' r && leb r b'Z')
    || (leb b'0' r && leb r b'9')
    || r == b'-'
    || r == b'_'

unfoldable pub dashed : Bytes → Bytes
dashed [] = []
dashed (r ∷ s) = (if is_segment_char r then r else b'-') ∷ dashed s

unfoldable pub sanitize_segment : Bytes → Bytes
unfolding dashed
sanitize_segment s = if dashed s == [] then codes "run" else dashed s

unfoldable pub take_at_most : ℕ → Bytes → Bytes
take_at_most zero s = []
take_at_most (suc n) [] = []
take_at_most (suc n) (c ∷ s) = c ∷ take_at_most n s

-- The time, in UTC and formatted, and the first seven characters of the commit.
unfoldable pub release_name : Bytes → Bytes → Bytes
release_name stamp sha =
    stamp ++ b'-' ∷ (if take_at_most 7 sha == [] then codes "unknown" else take_at_most 7 sha)

-- An entry of the releases directory.
pub record Entry : Type 0 where
  pub name : Bytes
  pub is_dir : Bool

unfoldable pub incoming : Bytes
incoming = codes ".incoming-"

-- The names of the finished releases.
unfoldable pub release_names : List Entry → List Bytes
unfolding incoming
release_names [] = []
release_names (e ∷ es) =
    let rest = release_names es in
    if e.is_dir && not (starts_with incoming e.name) then e.name ∷ rest else rest

unfoldable pub reversed : List Bytes → List Bytes → List Bytes
reversed [] acc = acc
reversed (x ∷ xs) acc = reversed xs (x ∷ acc)

-- `sort.Sort(sort.Reverse(…))`.
unfoldable pub newest_first : List Bytes → List Bytes
unfolding reversed
newest_first names = reversed (sort_texts names) []

unfoldable pub keep_releases : ℕ
keep_releases = 5

unfoldable pub drop_first : ℕ → List Bytes → List Bytes
drop_first zero xs = xs
drop_first (suc n) [] = []
drop_first (suc n) (x ∷ xs) = drop_first n xs

unfoldable pub take_first : ℕ → List Bytes → List Bytes
take_first zero xs = []
take_first (suc n) [] = []
take_first (suc n) (x ∷ xs) = x ∷ take_first n xs

-- What release.go takes from the file system, for the releases directory of one project: its entries,
-- the text of a release's commit file, the target of the link `current` if that is a directory below
-- it, `os.RemoveAll` of a release, and whether a release is there.
pub record Tree : Type 1 where
  pub State : Type 0
  pub entries : State → Option (List Entry)
  pub sha_file : Bytes → State → Option Bytes
  pub current : State → Option Bytes
  pub remove_all : Bytes → State → Bool × State
  pub present : Bytes → State → Bool

abbrev pub is_live : Option Bytes → Bytes → Bool
is_live none name = false
is_live (some live) name = name == live

module _ (T : Tree) where
  open T use {State, entries, sha_file, current, remove_all}

  unfoldable pub read_release_sha : Bytes → State → Bytes
  read_release_sha name s = elim (sha_file name s) [ none ↦ [] | some raw ↦ trim raw ]

  first_with : Bytes → List Bytes → State → Option Bytes
  first_with sha [] s = none
  first_with sha (name ∷ names) s =
      if read_release_sha name s == sha then some name else first_with sha names s

  -- The newest release with the commit.
  unfoldable pub find_release : Bytes → State → Option Bytes
  unfolding first_with
  find_release sha s = if sha == [] then none else elim (entries s) [
    | none ↦ none
    | some es ↦ first_with sha (newest_first (release_names es)) s
  ]

  -- The names that were removed, in front of those of the rest.
  abbrev noted_removal : Bytes → Bool → List Bytes × State → List Bytes × State
  noted_removal name true (removed, s) = (name ∷ removed, s)
  noted_removal name false (removed, s) = (removed, s)

  unfoldable pub remove_old : Option Bytes → List Bytes → State → List Bytes × State
  remove_old live [] s = ([], s)
  remove_old live (name ∷ names) s =
      let kept = remove_old live names s in
      let rest = remove_old live names (remove_all name s).1 in
      if is_live live name then kept else noted_removal name (remove_all name s).0 rest

  -- All but the newest, and never the live one.
  unfoldable pub prune : State → List Bytes × State
  unfolding remove_old
  prune s = elim (entries s) [
    | none ↦ ([], s)
    | some es ↦
        if leb (length (release_names es)) keep_releases
        then ([], s)
        else remove_old (current s) (drop_first keep_releases (newest_first (release_names es))) s
  ]
