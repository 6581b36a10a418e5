-- ===== src/Gateway/Catalog/Needs.antt =====
-- An agent that is shown as behind is offered the update: control-plane/internal/updates/catalog.go and
-- control-plane/internal/agentgw/update.go.
use cron_compose.Prelude.{
  bytes_eq, ◌==◌, ◌≡◌, refl, sym, ◌∙◌, Bool, true, false, [], ◌++◌, some, if◌then◌else◌, Bytes,
  arith, Bool-cases, inl, inr,
}
use cron_compose.Prelude.Text.{codes}
use cron_compose.Prelude.Strings.{trim}
use cron_compose.Gateway.Versions.Order.{equal_versions}
use cron_compose.Gateway.Versions.{
  UpdatePolicy, versions_equal, version_newer, active, source, source_update, update_for,
}
use cron_compose.Gateway.Catalog.{Release, Catalog, policy, needs_update}

newer_is_other : (a b : Bytes) → version_newer a b ≡ true → versions_equal a b ≡ false
newer_is_other a b h = elim (Bool-cases (versions_equal a b)) [
  | inl same ↦ absurd (ground (arith, h, (equal_versions a b same).0))
  | inr other ↦ other
]

module _ (c : Catalog) (rel : Release) (l : c.latest ≡ some rel) where
  abbrev policy_of : UpdatePolicy
  policy_of = record {
    version = rel.version;
    url_template = [];
    repo = c.repo;
    checksums = rel.checksums;
    restart = c.restart;
  }

  policy_lem : policy c ≡ policy_of
  unfolding policy
  policy_lem = rw (l, policy) refl

  needs_update_lem :
      (current : Bytes) → needs_update c current ≡ true → version_newer current rel.version ≡ true
  unfolding needs_update
  needs_update_lem current n = by_test (current == []) (sym at_latest ∙ n)
    where
      at_latest :
          needs_update c current
          ≡ (if current == [] then false else version_newer current rel.version)
      at_latest = rw (l, needs_update) refl

      by_test :
          (b : Bool)
          → (if b then false else version_newer current rel.version) ≡ true
          → version_newer current rel.version ≡ true
      by_test true h = ground (arith, h)
      by_test false h = h

  offered :
      (current os arch : Bytes)
      → (trim rel.version == []) ≡ false
      → (trim c.repo == []) ≡ false
      → versions_equal current rel.version ≡ false
      → update_for policy_of current os arch ≡ some (source_update policy_of)
  unfolding update_for active source
  offered current os arch v r n = rw (v, r, n) refl

-- If the latest release and the repository are not blank, every agent that NeedsUpdate reports as behind
-- is sent, by the policy of the catalog, the source update to that release, whatever its platform.
pub needs_update-offered :
    (c : Catalog) (rel : Release) (current os arch : Bytes)
    → c.latest ≡ some rel
    → (trim rel.version == []) ≡ false
    → (trim c.repo == []) ≡ false
    → needs_update c current ≡ true
    → update_for (policy c) current os arch
      ≡ some (record {
        target_version = rel.version;
        download_url = codes "https://github.com/" ++ trim c.repo;
        sha256 = [];
        restart = c.restart;
      })
unfolding source_update
needs_update-offered c rel current os arch l v r n = rw (policy_lem c rel l) (
    offered c rel l current os arch v r
      (newer_is_other current rel.version (needs_update_lem c rel l current n)))
