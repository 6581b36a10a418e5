-- ===== src/Gateway/Catalog.antt =====
-- control-plane/internal/updates/catalog.go: the latest agent release. What GitHub answers is an
-- argument.
pub mod Needs
mod Tests
use cron_compose.Prelude.{
  ℕ, bytes_eq, ◌==◌, Bool, true, false, List, [], ◌∷◌, Option, none, some, if◌then◌else◌, Bytes,
}
use cron_compose.Gateway.Versions.{UpdatePolicy, version_newer}

pub record Release : Type 0 where
  pub version : Bytes
  pub release_url : Bytes
  pub checksums : List (Bytes × Bytes)

pub record Catalog : Type 0 where
  pub repo : Bytes
  pub restart : Bool
  pub has_hook : Bool
  pub latest : Option Release
  pub last_err : Bytes

-- What `fetchLatestRelease` returns.
pub data Fetched : Type 0 where
  fetched : Release → Fetched
  failed : Bytes → Fetched

-- Whether the hook is called for a new release.
is_news : Bool → Option Release → Release → Bool
is_news true (some prev) rel = version_newer prev.version rel.version
is_news _ _ rel = false

-- The catalog afterwards, and the release that the hook is called with.
unfoldable pub refresh : Fetched → Catalog → Catalog × Option Release
unfolding is_news
refresh (failed e) c = (record c { last_err = e }, none)
refresh (fetched rel) c = (
  record c { latest = some rel; last_err = [] },
  if is_news c.has_hook c.latest rel then some rel else none,
)

abbrev no_policy : UpdatePolicy
no_policy = record { version = []; url_template = []; repo = []; checksums = []; restart = false }

unfoldable pub policy : Catalog → UpdatePolicy
policy c = elim c.latest [
  | none ↦ no_policy
  | some rel ↦ record {
    version = rel.version;
    url_template = [];
    repo = c.repo;
    checksums = rel.checksums;
    restart = c.restart;
  }
]

unfoldable pub needs_update : Catalog → Bytes → Bool
needs_update c current = elim c.latest [
  | none ↦ false
  | some rel ↦ if current == [] then false else version_newer current rel.version
]
