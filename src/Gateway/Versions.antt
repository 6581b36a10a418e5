-- ===== src/Gateway/Versions.antt =====
-- control-plane/internal/agentgw/update.go: agent versions and the update that is offered. Text is
-- code points. Go's `int` is its 64-bit pattern, and `signed_ltb` its order.
pub mod Order
pub mod Offer
mod Tests
use cron_compose.Prelude.{
  ℕ, zero, suc, ◌+◌, ◌-◌, ◌*◌, ◌%◌, ◌^◌, bytes_eq, ◌==◌, Bool, true, false, not, ◌||◌, ◌&&◌, List,
  [], ◌∷◌, ◌++◌, Option, none, some, if◌then◌else◌, Bytes, map, nat_beq, leb, ltb, length,
}
use cron_compose.Prelude.Text.{codes}
use cron_compose.Prelude.Map.{get}
use cron_compose.Prelude.Strings.{trim, strip_prefix, split}

abbrev pub signed_ltb : ℕ → ℕ → Bool
signed_ltb a b = ltb ((a + 2 ^ 63) % 2 ^ 64) ((b + 2 ^ 63) % 2 ^ 64)

unfoldable pub normalize_version : Bytes → Bytes
normalize_version v = elim (strip_prefix (codes "v") (trim v)) [ none ↦ trim v | some rest ↦ rest ]

unfoldable pub versions_equal : Bytes → Bytes → Bool
versions_equal a b = normalize_version a == normalize_version b

-- The text before the first `-` or `+`.
unfoldable pub release_part : Bytes → Bytes
release_part [] = []
release_part (c ∷ s) = if nat_beq c b'-' || nat_beq c b'+' then [] else c ∷ release_part s

-- The leading digits of a segment, as an `int` that wraps around.
unfoldable pub segment_value : ℕ → Bytes → ℕ
segment_value n [] = n
segment_value n (c ∷ s) =
    if ltb c b'0' || ltb b'9' c then n else segment_value ((n * 10 + (c - b'0')) % 2 ^ 64) s

unfoldable pub parse_version_parts : Bytes → List ℕ
parse_version_parts [] = []
parse_version_parts (c ∷ s) = map (segment_value 0) (split b'.' (release_part (c ∷ s)))

-- One round of the loop, before the rounds that follow.
abbrev pub decide : ℕ → ℕ → Bool → Bool
decide c l rest = if signed_ltb c l then true else (if signed_ltb l c then false else rest)

-- The loop over the segments, 0 where a version has no more.
unfoldable pub newer_parts : List ℕ → List ℕ → Bool
newer_parts [] [] = false
newer_parts [] (l ∷ lat) = decide 0 l (newer_parts [] lat)
newer_parts (c ∷ cur) [] = decide c 0 (newer_parts cur [])
newer_parts (c ∷ cur) (l ∷ lat) = decide c l (newer_parts cur lat)

unfoldable pub version_newer : Bytes → Bytes → Bool
version_newer current latest =
    newer_parts (parse_version_parts (normalize_version current))
      (parse_version_parts (normalize_version latest))

-- `UpdatePolicy`.
pub record UpdatePolicy : Type 0 where
  pub version : Bytes
  pub url_template : Bytes
  pub repo : Bytes
  pub checksums : List (Bytes × Bytes)
  pub restart : Bool

-- `agentv1.UpdateAgent`.
pub record UpdateAgent : Type 0 where
  pub target_version : Bytes
  pub download_url : Bytes
  pub sha256 : Bytes
  pub restart : Bool

abbrev is_empty_map : List (Bytes × Bytes) → Bool
is_empty_map [] = true
is_empty_map (e ∷ m) = false

unfoldable pub active : UpdatePolicy → Bool
active p =
    if trim p.version == []
    then false
    else (if not (trim p.repo == [])
        then true
        else not (p.url_template == []) && not (is_empty_map p.checksums))

unfoldable pub source : UpdatePolicy → Bool
source p = not (trim p.repo == []) && ((p.url_template == []) || is_empty_map p.checksums)

unfoldable pub checksum_for : UpdatePolicy → Bytes → Bytes → Bytes
checksum_for p os arch = elim (get (os ++ (b'/' ∷ arch)) p.checksums) [
  | some s ↦ s
  | none ↦ elim (get (codes "*") p.checksums) [ none ↦ [] | some s ↦ s ]
]

unfoldable pub platform_target : Bytes → Bytes → Bytes
platform_target os arch =
    if (os == codes "linux") && ((arch == codes "amd64") || (arch == codes "386"))
    then codes "linux-amd64"
    else (if (os == codes "linux") && (arch == codes "arm64")
        then codes "linux-arm64"
        else (if (os == codes "linux") && ((arch == codes "arm") || (arch == codes "armv7"))
            then codes "linux-armv7"
            else (if (os == codes "darwin") && (arch == codes "arm64")
                then codes "darwin-arm64"
                else (if (os == codes "darwin") && (arch == codes "amd64")
                    then codes "darwin-amd64"
                    else os ++ (b'-' ∷ arch)))))

-- The first pattern that the text begins with, with its value.
abbrev first_match : List (Bytes × Bytes) → Bytes → Option (Bytes × Bytes)
first_match [] s = none
first_match ((p, v) ∷ ps) s = elim (strip_prefix p s) [
  | some rest ↦ some (p, v)
  | none ↦ first_match ps s
]

-- `strings.NewReplacer(...).Replace`; the number is how many characters of a match are left to skip.
unfoldable pub replace_all : List (Bytes × Bytes) → ℕ → Bytes → Bytes
replace_all ps skip [] = []
replace_all ps (suc skip) (c ∷ s) = replace_all ps skip s
replace_all ps zero (c ∷ s) = elim (first_match ps (c ∷ s)) [
  | none ↦ c ∷ replace_all ps zero s
  | some (p, v) ↦ v ++ replace_all ps (length p - 1) s
]

unfoldable pub url_for : UpdatePolicy → Bytes → Bytes → Bytes
unfolding replace_all platform_target
url_for p os arch =
    replace_all
      ((codes "{version}", p.version)
        ∷ (codes "{os}", os)
        ∷ (codes "{arch}", arch)
        ∷ (codes "{target}", platform_target os arch)
        ∷ (codes "{repo}", p.repo)
        ∷ [])
      0 p.url_template

unfoldable pub source_update : UpdatePolicy → UpdateAgent
source_update p = record {
  target_version = p.version;
  download_url = codes "https://github.com/" ++ trim p.repo;
  sha256 = [];
  restart = p.restart;
}

binary_update : UpdatePolicy → Bytes → Bytes → Bytes → Option UpdateAgent
binary_update p os arch sum =
    if sum == []
    then none
    else some (record {
      target_version = p.version;
      download_url = url_for p os arch;
      sha256 = sum;
      restart = p.restart;
    })

-- `For`, `none` if there is nothing to send.
unfoldable pub update_for : UpdatePolicy → Bytes → Bytes → Bytes → Option UpdateAgent
unfolding source_update binary_update
update_for p agent_version os arch =
    if not (active p) || versions_equal agent_version p.version
    then none
    else (if source p
        then some (source_update p)
        else binary_update p os arch (checksum_for p os arch))
