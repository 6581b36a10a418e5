-- ===== src/Gateway/Catalog/Tests.antt =====
-- A catalog with a release, and the theorem at a concrete input.
use cron_compose.Prelude.{bytes_eq, ◌≡◌, refl, true, false, [], ◌++◌, some}
use cron_compose.Prelude.Text.{codes}
use cron_compose.Prelude.Strings.{
  trim, trim_left_by, trim_right_by, cons_kept, is_space, strip_prefix, split,
}
use cron_compose.Gateway.Versions.{
  normalize_version, release_part, segment_value, parse_version_parts, newer_parts, version_newer,
  update_for,
}
use cron_compose.Gateway.Catalog.Needs.{needs_update-offered}
use cron_compose.Gateway.Catalog.{Release, Catalog, policy, needs_update}

abbrev release : Release
release = record { version = codes "1.2.0"; release_url = []; checksums = [] }

abbrev catalog : Catalog
catalog = record {
  repo = codes "a/b";
  restart = true;
  has_hook = false;
  latest = some release;
  last_err = [];
}

needs_update-offered_example :
    update_for (policy catalog) (codes "v1.1.9") (codes "linux") (codes "arm64")
    ≡ some (record {
      target_version = codes "1.2.0";
      download_url = codes "https://github.com/" ++ trim (codes "a/b");
      sha256 = [];
      restart = true;
    })
unfolding needs_update trim trim_left_by trim_right_by cons_kept is_space strip_prefix split
    normalize_version release_part segment_value parse_version_parts newer_parts version_newer
needs_update-offered_example =
    needs_update-offered catalog release (codes "v1.1.9") (codes "linux") (codes "arm64") refl refl
      refl refl
